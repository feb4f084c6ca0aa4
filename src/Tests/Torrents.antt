-- ===== src/Tests/Torrents.antt =====
-- The torrent client at concrete inputs.
use cpp_network_homework.Prelude.{
  ℕ, ◌≡◌, refl, inl, inr, true, false, false≢true, none, some, [], ◌∷◌, ◌++◌, if◌then◌else◌, length,
  Bytes, codes,
}
use cpp_network_homework.Text.Stream.{is_empty}
use cpp_network_homework.FileServer.Request.{starts_with, find_from, find}
use cpp_network_homework.Torrent.Start.{
  Libtorrent, load_file, link, added, apply_options, link_of, link_from, magnet_link, start,
}
use cpp_network_homework.Torrent.Start.Added.{Readable, start_fresh}
use cpp_network_homework.Torrent.Loop.{
  torrent_finished, save_resume_data, other_alert, Client, Round, shutting_down, running, run,
}
use cpp_network_homework.Torrent.Loop.Quiet.{
  IsReady, IsQuietAlert, IsQuiet, last_saved, last_saved_of,
}
use cpp_network_homework.Torrent.Main.{session, main}
use cpp_network_homework.Torrent.Loop.Early.{IsEarlyAlert, IsEarly, adding}
use cpp_network_homework.Torrent.Main.Runs.{StartsQuietly, main-last_saved_of, main-start}
use cpp_network_homework.Torrent.Loop.Ending.{IsNoData, IsEnd, run_ended}

-- A torrent is its text, and its parameters are a number and the save path.
abbrev texts : Libtorrent Bytes (ℕ × Bytes)
texts = record {
  torrent_info = λ name. some name;
  clear_trackers = λ t. t;
  clear_web_seeds = λ t. t;
  make_magnet_uri = λ t. codes "magnet:?" ++ t;
  parse_magnet_uri = λ u. some (length u, []);
  read_resume_data = λ b. some (length b, codes "old");
  info_hash = λ p. p.0;
  set_save_path = λ d p. (p.0, d);
}

one_resume-Readable : Readable texts (load_file (some (codes "d8")))
unfolding Readable load_file
one_resume-Readable = inr ((2, codes "old"), refl)

file_link : magnet_link texts (codes "t") [] ≡ link (codes "magnet:?t")
unfolding magnet_link find find_from starts_with link_from link_of apply_options
file_link = refl

file_parsed :
    texts.parse_magnet_uri (if is_empty (codes "magnet:?t") then codes "t" else codes "magnet:?t")
    ≡ some (9, [])
unfolding is_empty
file_parsed = refl

abbrev with_handle : Client
with_handle = record {
  handle = some 7;
  done = false;
  requests = [];
  resume_file = none;
  printed = [];
  last_save = 0;
}

abbrev saving : Round
saving = record {
  alerts = save_resume_data (codes "d1") ∷ [];
  shut_down = false;
  torrents = 7 ∷ [];
  opens = true;
  now = 5;
  now_again = 5;
}

abbrev finishing : Round
finishing = record saving { alerts = torrent_finished ∷ other_alert ∷ [] }

abbrev stopping : Round
stopping = record saving { alerts = save_resume_data (codes "d2") ∷ []; shut_down = true }

with_handle-IsReady : IsReady with_handle
unfolding IsReady
with_handle-IsReady = ((7, refl), refl)

saving-IsQuiet : IsQuiet saving
unfolding IsQuiet IsQuietAlert
saving-IsQuiet = ((tt, tt), λ e. absurd (false≢true e))

finished-IsEnd : IsEnd torrent_finished
unfolding IsEnd
finished-IsEnd = tt

other-IsNoData : IsNoData other_alert
unfolding IsNoData
other-IsNoData = tt

other-IsQuietAlert : IsQuietAlert other_alert
unfolding IsQuietAlert
other-IsQuietAlert = tt

run_ended_example :
    (d : Client) × (run ((saving ∷ []) ++ (finishing ∷ [])) with_handle ≡ shutting_down d)
    × (d.resume_file ≡ last_saved true [] (last_saved_of (saving ∷ []) none))
run_ended_example =
    run_ended (saving ∷ []) [] finishing [] (other_alert ∷ []) torrent_finished with_handle
      with_handle-IsReady (saving-IsQuiet, tt) (λ e. absurd (false≢true e)) refl tt finished-IsEnd
      (other-IsNoData, tt) (other-IsQuietAlert, tt)

none-Readable : Readable texts (load_file none)
unfolding Readable load_file is_empty
none-Readable = inl refl

-- A round behind the start with an alert that is about no torrent.
abbrev starting : Round
starting = record saving { alerts = other_alert ∷ []; shut_down = false; now = 5 }

starting-StartsQuietly : StartsQuietly 4 (starting ∷ []) (other_alert ∷ [])
unfolding IsEarly IsEarlyAlert
starting-StartsQuietly = ((((tt, tt), (λ e. absurd (false≢true e)), refl), tt), (tt, tt))

main-last_saved_of_example :
    (p : ℕ × Bytes) × (d : Client) × (main texts
        (codes "client" ∷ codes "t" ∷ [])
        none
        4
        ((starting ∷ []) ++ (adding (other_alert ∷ []) 7 saving ∷ []))
      ≡ session p (running d))
    × (p.0 ≡ 9)
    × (d.resume_file ≡ last_saved_of (saving ∷ []) none)
main-last_saved_of_example =
    main-last_saved_of texts (λ d p. refl) (codes "client") (codes "t") [] (codes "magnet:?t")
      (9, []) none 4 7 (starting ∷ []) (other_alert ∷ []) saving [] file_link file_parsed
      none-Readable starting-StartsQuietly (saving-IsQuiet, tt)

-- `texts` with resume data that is of the torrent of the link.
abbrev same_torrent : Libtorrent Bytes (ℕ × Bytes)
same_torrent = record texts { read_resume_data = λ b. some (9, b) }

same_link : magnet_link same_torrent (codes "t") [] ≡ link (codes "magnet:?t")
unfolding magnet_link find find_from starts_with link_from link_of apply_options
same_link = refl

saved_data : last_saved_of (saving ∷ []) none ≡ some (codes "d1")
unfolding last_saved_of last_saved
saved_data = refl

data_there : is_empty (codes "d1") ≡ false
unfolding is_empty
data_there = refl

first_start : start same_torrent (codes "client" ∷ codes "t" ∷ []) none ≡ added (9, codes ".")
first_start =
    start_fresh same_torrent (codes "client") (codes "t") [] (codes "magnet:?t") (9, []) same_link
      file_parsed

main-start_example :
    (d : Client) × (main same_torrent
        (codes "client" ∷ codes "t" ∷ [])
        none
        4
        ((starting ∷ []) ++ (adding (other_alert ∷ []) 7 saving ∷ ([] ++ (stopping ∷ []))))
      ≡ session (9, codes ".") (shutting_down d))
    × (d.resume_file ≡ some (codes "d1"))
    × (start same_torrent (codes "client" ∷ codes "t" ∷ []) d.resume_file
        ≡ added (same_torrent.set_save_path (codes ".") (9, codes "d1")))
main-start_example =
    main-start same_torrent (codes "client") (codes "t") [] (codes "magnet:?t") (9, [])
      (9, codes "d1") none (codes "d1") (9, codes ".") 4 7 7 (starting ∷ []) (other_alert ∷ [])
      saving stopping [] [] same_link file_parsed first_start starting-StartsQuietly
      (saving-IsQuiet, tt) refl refl saved_data data_there refl refl
