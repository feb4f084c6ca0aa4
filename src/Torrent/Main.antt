-- ===== src/Torrent/Main.antt =====
-- `main` of hw8/torrent_client/torrent_client.cpp as a whole: its two parts and their exceptions.
pub mod Runs
use cpp_network_homework.Prelude.{ℕ, false, Option, none, List, [], Bytes}
use cpp_network_homework.Torrent.Start.{Libtorrent, Started, failure, caught, added, start}
use cpp_network_homework.Torrent.Loop.{Client, Round, Result, run}

-- The variables before the loop, with the time at which the session was made.
abbrev pub initial : ℕ → Option Bytes → Client
initial now resume_file = record {
  handle = none;
  done = false;
  requests = [];
  resume_file = resume_file;
  printed = [];
  last_save = now;
}

-- The result 1; an exception that is caught, with the result 0; or the loop for this torrent, which
-- gives 0 in the end.
pub data Exit (P : Type 0) : Type 0 where
  exit_failure exit_caught : Exit P
  session : P → Result → Exit P

unfoldable pub looped : {P : Type 0} → ℕ → Option Bytes → List Round → Started P → Exit P
looped now resume_file rounds failure = exit_failure
looped now resume_file rounds caught = exit_caught
looped now resume_file rounds (added p) = session p (run rounds (initial now resume_file))

module _ {T P : Type 0} (lt : Libtorrent T P) where
  -- With what the file `.resume_file` holds, and the rounds that the loop may make.
  pub main : List Bytes → Option Bytes → ℕ → List Round → Exit P
  main args resume_file now rounds = looped now resume_file rounds (start lt args resume_file)
