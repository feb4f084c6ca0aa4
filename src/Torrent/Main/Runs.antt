-- ===== src/Torrent/Main/Runs.antt =====
-- What a run of the torrent client leaves to the next one.
use cpp_network_homework.Prelude.{
  ℕ, ◌≡◌, refl, ap, ◌∙◌, ◌≢◌, true, false, Option, some, List, [], ◌∷◌, ◌++◌, if◌then◌else◌, length,
  All, Bytes, codes,
}
use cpp_network_homework.Text.Stream.{is_empty}
use cpp_network_homework.Torrent.Start.{Libtorrent, load_file, link, added, magnet_link, start}
use cpp_network_homework.Torrent.Start.Added.{Readable, start-info_hash, start_resumes}
use cpp_network_homework.Torrent.Loop.{Alert, Client, Round, shutting_down, running, run}
use cpp_network_homework.Torrent.Loop.Quiet.{IsQuiet, last_saved_of, GoesOn, run-last_saved_of}
use cpp_network_homework.Torrent.Loop.Early.{IsEarlyAlert, IsEarly, IsWaiting, adding, run-adding}
use cpp_network_homework.Torrent.Loop.Ending.{run_interrupted}
use cpp_network_homework.Torrent.Main.{initial, session, looped, main}

initial-IsWaiting : (now : ℕ) (file : Option Bytes) → IsWaiting now file (initial now file)
unfolding IsWaiting
initial-IsWaiting now file = (refl, refl, refl)

-- The rounds before the one in which the torrent is added, and the alerts before that one, come
-- within 30 seconds, and are about no torrent.
abbrev pub StartsQuietly : ℕ → List Round → List Alert → Type 0
StartsQuietly now early before = All (IsEarly now) early × All IsEarlyAlert before

not_one_of : (r : Round) → IsQuiet r → r.shut_down ≡ true → length r.torrents ≢ 1
unfolding IsQuiet
not_one_of r q = q.1

module _ {T P : Type 0} (lt : Libtorrent T P) where
  main-run :
      (args : List Bytes) (file : Option Bytes) (now h : ℕ) (early : List Round)
      (before : List Alert) (r : Round) (rounds : List Round) (p : P)
      → start lt args file ≡ added p
      → StartsQuietly now early before
      → IsQuiet r
      → (c : Client) × (main lt args file now (early ++ (adding before h r ∷ rounds))
          ≡ session p (run (r ∷ rounds) c))
        × GoesOn file c
  unfolding main looped
  main-run args file now h early before r rounds p e (es, bs) q =
      let (c, runs, on) =
        run-adding now file early before h r rounds (initial now file) (initial-IsWaiting now file)
          es bs (not_one_of r q) in
      (c, ap (looped now file (early ++ (adding before h r ∷ rounds))) e ∙ ap (session p) runs, on)

  -- The program on a link that libtorrent parses, and a `.resume_file` that it reads or that is
  -- empty or absent: it adds the torrent of the link. The alert that it is added comes within 30
  -- seconds, behind rounds and alerts that are about no torrent; from then on the program stays in its
  -- loop while the torrent neither ends nor fails. At no time does a SIGINT meet exactly one torrent.
  -- `.resume_file` then holds the resume data that came last while the file opened, or what it held
  -- before. Setting the save path keeps the info hash.
  pub main-last_saved_of :
      ((d : Bytes) (p : P) → lt.info_hash (lt.set_save_path d p) ≡ lt.info_hash p)
      → (program name : Bytes) (args : List Bytes) (magn : Bytes) (magnet : P) (file : Option Bytes)
        (now h : ℕ) (early : List Round) (before : List Alert) (r : Round) (rounds : List Round)
      → magnet_link lt name args ≡ link magn
      → lt.parse_magnet_uri (if is_empty magn then name else magn) ≡ some magnet
      → Readable lt (load_file file)
      → StartsQuietly now early before
      → All IsQuiet (r ∷ rounds)
      → (p : P) × (d : Client) × (main lt
            (program ∷ name ∷ args)
            file
            now
            (early ++ (adding before h r ∷ rounds))
          ≡ session p (running d))
        × (lt.info_hash p ≡ lt.info_hash magnet)
        × (d.resume_file ≡ last_saved_of (r ∷ rounds) file)
  unfolding GoesOn
  main-last_saved_of keeps program name args magn magnet file now h early before r rounds l parsed
        readable s quiet =
      let (p, e, hash) =
        start-info_hash lt keeps program name args magn magnet file l parsed readable in
      let (c, begins, (c_ready, held)) =
        main-run (program ∷ name ∷ args) file now h early before r rounds p e s quiet.0 in
      let (d, runs, (ready, kept)) = run-last_saved_of (r ∷ rounds) c c_ready quiet in
      (p, d, begins ∙ ap (session p) runs, hash, kept ∙ ap (last_saved_of (r ∷ rounds)) held)

  -- The alert that the torrent is added comes within 30 seconds, behind rounds and alerts that are
  -- about no torrent, and rounds follow in which nothing ends the program. A SIGINT while the session
  -- has one torrent then ends it; `.resume_file` holds the data that came last in the rounds before, which is not what the program asks for at the signal, nor
  -- what the alerts of the same round have. If that is resume data of the same torrent, the next run
  -- on the same arguments adds the torrent with it.
  pub main-start :
      (program name : Bytes) (args : List Bytes) (magn : Bytes) (magnet atp : P)
      (file : Option Bytes) (bytes : Bytes) (p : P) (now h k : ℕ) (early : List Round)
      (before : List Alert) (r last : Round) (rounds more : List Round)
      → magnet_link lt name args ≡ link magn
      → lt.parse_magnet_uri (if is_empty magn then name else magn) ≡ some magnet
      → start lt (program ∷ name ∷ args) file ≡ added p
      → StartsQuietly now early before
      → All IsQuiet (r ∷ rounds)
      → last.shut_down ≡ true
      → last.torrents ≡ k ∷ []
      → last_saved_of (r ∷ rounds) file ≡ some bytes
      → is_empty bytes ≡ false
      → lt.read_resume_data bytes ≡ some atp
      → lt.info_hash atp ≡ lt.info_hash magnet
      → (d : Client) × (main lt
            (program ∷ name ∷ args)
            file
            now
            (early ++ (adding before h r ∷ (rounds ++ (last ∷ more))))
          ≡ session p (shutting_down d))
        × (d.resume_file ≡ some bytes)
        × (start lt (program ∷ name ∷ args) d.resume_file
            ≡ added (lt.set_save_path (codes ".") atp))
  unfolding GoesOn
  main-start program name args magn magnet atp file bytes p now h k early before r last rounds more
        l parsed e s quiet signal single saved some_bytes read same =
      let (c, begins, (c_ready, held)) =
        main-run (program ∷ name ∷ args) file now h early before r (rounds ++ (last ∷ more)) p e s
          quiet.0 in
      let (d, runs, kept) =
        run_interrupted (r ∷ rounds) more last k c c_ready quiet signal single in
      let holds = kept ∙ ap (last_saved_of (r ∷ rounds)) held ∙ saved in
      (
        d,
        begins ∙ ap (session p) runs,
        holds,
        ap (start lt (program ∷ name ∷ args)) holds
            ∙ start_resumes lt program name args magn magnet atp bytes l parsed some_bytes read
                same,
      )
