-- ===== src/Torrent/Start.antt =====
-- `main` of hw8/torrent_client/torrent_client.cpp up to `async_add_torrent`: the options, the magnet
-- link, and the resume data. libtorrent is a parameter, over its torrents `T` and its parameters of
-- a torrent `P`; `none` is an exception.
pub mod Added
use cpp_network_homework.Prelude.{
  ℕ, not, Option, none, some, List, [], ◌∷◌, ◌==◌, if◌then◌else◌, Bytes, codes, equal,
}
use cpp_network_homework.Text.Stream.{is_empty}
use cpp_network_homework.FileServer.Request.{find}

pub record Libtorrent (T P : Type 0) : Type 0 where
  pub torrent_info : Bytes → Option T
  pub clear_trackers : T → T
  pub clear_web_seeds : T → T
  pub make_magnet_uri : T → Bytes
  pub parse_magnet_uri : Bytes → Option P
  pub read_resume_data : Bytes → Option P
  pub info_hash : P → ℕ
  pub set_save_path : Bytes → P → P

-- `load_file`: a file that does not open gives no bytes.
unfoldable pub load_file : Option Bytes → Bytes
load_file none = []
load_file (some bytes) = bytes

-- How the options end: an unknown one is printed, and the program fails.
pub data Options (T : Type 0) : Type 0 where
  unknown_option : Bytes → Options T
  applied : T → Options T

-- The magnet link of the first argument, or the end of the program.
pub data Link : Type 0 where
  no_link thrown_away : Link
  link : Bytes → Link

-- Where the program is before its loop: it has failed, or an exception was caught, or this torrent
-- has been added.
pub data Started (P : Type 0) : Type 0 where
  failure caught : Started P
  added : P → Started P

module _ {T P : Type 0} (lt : Libtorrent T P) where
  unfoldable pub apply_options : List Bytes → T → Options T
  apply_options [] t = applied t
  apply_options (a ∷ args) t =
      let no_trackers = apply_options args (lt.clear_trackers t) in
      let no_web_seeds = apply_options args (lt.clear_web_seeds t) in
      if equal a (codes "--no-trackers")
      then no_trackers
      else if equal a (codes "--no-web-seeds")
      then no_web_seeds
      else unknown_option a

  unfoldable pub link_of : Options T → Link
  link_of (unknown_option a) = no_link
  link_of (applied t) = link (lt.make_magnet_uri t)

  unfoldable pub link_from : List Bytes → Option T → Link
  link_from args none = thrown_away
  link_from args (some t) = link_of (apply_options args t)

  -- Without a torrent file the link is empty, and the options are not looked at.
  unfoldable pub magnet_link : Bytes → List Bytes → Link
  magnet_link name args =
      if find name (codes "magnet:?") == 0 then link [] else link_from args (lt.torrent_info name)

  -- The resume data is taken if it is of the same torrent.
  resumed : P → P → P
  resumed magnet atp = if lt.info_hash atp == lt.info_hash magnet then atp else magnet

  with_resume : Bytes → P → Option P
  with_resume buf magnet =
      if not (is_empty buf)
      then (elim (lt.read_resume_data buf) [ none ↦ none | some atp ↦ some (resumed magnet atp) ])
      else some magnet

  with_save_path : Option P → Started P
  with_save_path none = caught
  with_save_path (some p) = added (lt.set_save_path (codes ".") p)

  add_magnet : Bytes → Option P → Started P
  add_magnet buf none = caught
  add_magnet buf (some magnet) = with_save_path (with_resume buf magnet)

  -- Behind the first argument: `name` where the link is empty, and the link else.
  start_link : Bytes → Bytes → Link → Started P
  start_link name buf no_link = failure
  start_link name buf thrown_away = caught
  start_link name buf (link magn) =
      add_magnet buf (lt.parse_magnet_uri (if is_empty magn then name else magn))

  -- With what the file `.resume_file` holds.
  pub start : List Bytes → Option Bytes → Started P
  start (program ∷ name ∷ args) resume_file =
      start_link name (load_file resume_file) (magnet_link name args)
  start _ resume_file = failure
