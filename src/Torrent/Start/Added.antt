-- ===== src/Torrent/Start/Added.antt =====
-- Which torrent the program adds.
use cpp_network_homework.Prelude.{
  ◌≡◌, refl, sym, ap, ◌∙◌, ◌⊎◌, inl, inr, true, false, Option, none, some, List, [], ◌∷◌, ◌++◌,
  ◌==◌, if◌then◌else◌, ==_iff, Bool-cases, All, Bytes, codes, equal,
}
use cpp_network_homework.Text.Stream.{is_empty}
use cpp_network_homework.FileServer.Request.{find}
use cpp_network_homework.Torrent.Start.{
  Libtorrent, load_file, unknown_option, link, failure, added, apply_options, link_of, link_from,
  magnet_link, resumed, with_resume, with_save_path, add_magnet, start_link, start,
}

-- A resume file that libtorrent reads, or none, or an empty one.
unfoldable pub Readable : {T P : Type 0} → Libtorrent T P → Bytes → Type 0
Readable {T} {P} lt buf = (is_empty buf ≡ true) ⊎ ((atp : P) × (lt.read_resume_data buf ≡ some atp))

-- One of the two options that the program knows.
unfoldable pub IsKnown : Bytes → Type 0
IsKnown a = (equal a (codes "--no-trackers") ≡ true) ⊎ (equal a (codes "--no-web-seeds") ≡ true)

module _ {T P : Type 0} (lt : Libtorrent T P) where
  resumed-info_hash : (magnet atp : P) → lt.info_hash (resumed lt magnet atp) ≡ lt.info_hash magnet
  unfolding resumed
  resumed-info_hash magnet atp = elim (Bool-cases (lt.info_hash atp == lt.info_hash magnet)) [
    | inl e ↦ simp e ((==_iff _ _).0 e)
    | inr e ↦ simp e
  ]

  with_resume-some :
      (buf : Bytes) (magnet : P)
      → Readable lt buf
      → (p : P) × (with_resume lt buf magnet ≡ some p) × (lt.info_hash p ≡ lt.info_hash magnet)
  unfolding with_resume Readable
  with_resume-some buf magnet (inl e) = (magnet, simp e, refl)
  with_resume-some buf magnet (inr (atp, e)) = elim (Bool-cases (is_empty buf)) [
    | inl b ↦ (magnet, simp b, refl)
    | inr b ↦ (resumed lt magnet atp, simp (b, e), resumed-info_hash magnet atp)
  ]

  -- The program adds one torrent, and it has the info hash of the magnet link, whatever torrent the
  -- resume data is of; the link is the argument itself where that starts with `magnet:?`, and else
  -- the one made of the torrent file. It is stated for a link that libtorrent parses and a
  -- `.resume_file` that it reads, or that is empty or absent, where setting the save path keeps the
  -- info hash.
  pub start-info_hash :
      ((d : Bytes) (p : P) → lt.info_hash (lt.set_save_path d p) ≡ lt.info_hash p)
      → (program name : Bytes) (args : List Bytes) (magn : Bytes) (magnet : P)
        (resume_file : Option Bytes)
      → magnet_link lt name args ≡ link magn
      → lt.parse_magnet_uri (if is_empty magn then name else magn) ≡ some magnet
      → Readable lt (load_file resume_file)
      → (p : P) × (start lt (program ∷ name ∷ args) resume_file ≡ added p)
        × (lt.info_hash p ≡ lt.info_hash magnet)
  unfolding start start_link add_magnet with_save_path
  start-info_hash keeps program name args magn magnet resume_file is_link parsed readable =
      let (p, e, hash) = with_resume-some (load_file resume_file) magnet readable in
      (
        lt.set_save_path (codes ".") p,
        ap (start_link lt name (load_file resume_file)) is_link
            ∙ (ap (add_magnet lt (load_file resume_file)) parsed ∙ ap (with_save_path lt) e),
        keeps (codes ".") p ∙ hash,
      )

  -- Resume data of the same torrent is what is added.
  pub start_resumes :
      (program name : Bytes) (args : List Bytes) (magn : Bytes) (magnet atp : P) (bytes : Bytes)
      → magnet_link lt name args ≡ link magn
      → lt.parse_magnet_uri (if is_empty magn then name else magn) ≡ some magnet
      → is_empty bytes ≡ false
      → lt.read_resume_data bytes ≡ some atp
      → lt.info_hash atp ≡ lt.info_hash magnet
      → start lt (program ∷ name ∷ args) (some bytes) ≡ added (lt.set_save_path (codes ".") atp)
  unfolding start start_link add_magnet with_save_path with_resume resumed load_file
  start_resumes program name args magn magnet atp bytes is_link parsed some_bytes read same =
      let equal_hash : (lt.info_hash atp == lt.info_hash magnet) ≡ true = (==_iff _ _).1 same in
      ap (start_link lt name bytes) is_link
      ∙ (ap (add_magnet lt bytes) parsed ∙ simp (some_bytes, read, equal_hash))

  -- Without a resume file the link is added.
  pub start_fresh :
      (program name : Bytes) (args : List Bytes) (magn : Bytes) (magnet : P)
      → magnet_link lt name args ≡ link magn
      → lt.parse_magnet_uri (if is_empty magn then name else magn) ≡ some magnet
      → start lt (program ∷ name ∷ args) none ≡ added (lt.set_save_path (codes ".") magnet)
  unfolding start start_link add_magnet with_save_path with_resume load_file is_empty
  start_fresh program name args magn magnet is_link parsed =
      ap (start_link lt name []) is_link ∙ ap (add_magnet lt []) parsed

  apply_options-unknown :
      (before after : List Bytes) (bad : Bytes) (t : T)
      → All IsKnown before
      → equal bad (codes "--no-trackers") ≡ false
      → equal bad (codes "--no-web-seeds") ≡ false
      → apply_options lt (before ++ (bad ∷ after)) t ≡ unknown_option bad
  unfolding apply_options IsKnown
  apply_options-unknown [] after bad t known n m = simp (n, m)
  apply_options-unknown (a ∷ before) after bad t (inl e, known) n m =
      simp e (apply_options-unknown before after bad (lt.clear_trackers t) known n m)
  apply_options-unknown (a ∷ before) after bad t (inr e, known) n m =
      elim (Bool-cases (equal a (codes "--no-trackers"))) [
        | inl f ↦ simp f (apply_options-unknown before after bad (lt.clear_trackers t) known n m)
        | inr f ↦
            simp (e, f) (apply_options-unknown before after bad (lt.clear_web_seeds t) known n m)
      ]

  magnet_link-magnet :
      (name : Bytes)
      → find name (codes "magnet:?") ≡ 0
      → (args : List Bytes) → magnet_link lt name args ≡ link []
  unfolding magnet_link
  magnet_link-magnet name z args =
      ap (λ i. if i == 0 then link [] else link_from lt args (lt.torrent_info name)) z

  magnet_link-file :
      (name : Bytes) (args : List Bytes) (t : T)
      → lt.torrent_info name ≡ some t
      → (find name (codes "magnet:?") == 0) ≡ false
      → magnet_link lt name args ≡ link_of lt (apply_options lt args t)
  unfolding magnet_link link_from
  magnet_link-file name args t e f =
      ap (λ b. if b then link [] else link_from lt args (lt.torrent_info name)) f
      ∙ ap (link_from lt args) e

  -- An option that the program does not know, behind any that it knows, ends it with a failure, but
  -- only where the first argument is a torrent file, which libtorrent reads: behind a magnet link
  -- the options make no difference.
  pub start-unknown_option :
      (program name : Bytes) (before after : List Bytes) (bad : Bytes) (resume_file : Option Bytes)
      (t : T)
      → lt.torrent_info name ≡ some t
      → All IsKnown before
      → equal bad (codes "--no-trackers") ≡ false
      → equal bad (codes "--no-web-seeds") ≡ false
      → start lt (program ∷ name ∷ (before ++ (bad ∷ after))) resume_file ≡ (
          if find name (codes "magnet:?") == 0
          then start lt (program ∷ name ∷ []) resume_file
          else failure)
  unfolding start start_link link_of
  start-unknown_option program name before after bad resume_file t e known n m =
      let begin = start_link lt name (load_file resume_file) in
      elim (Bool-cases (find name (codes "magnet:?") == 0)) [
        | inl z ↦
            let magnet = magnet_link-magnet name ((==_iff _ _).0 z) in
            simp z (ap begin (magnet (before ++ (bad ∷ after)) ∙ sym (magnet [])))
        | inr f ↦ simp f (
            ap begin (
              magnet_link-file name (before ++ (bad ∷ after)) t e f
              ∙ ap (link_of lt) (apply_options-unknown before after bad t known n m)))
      ]
