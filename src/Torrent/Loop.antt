-- ===== src/Torrent/Loop.antt =====
-- The loop of `main` of hw8/torrent_client/torrent_client.cpp, and `state`. What libtorrent and the
-- clock give in one round is a value.
pub mod Quiet
pub mod Ending
pub mod Early
use cpp_network_homework.Prelude.{
  ℕ, ◌-◌, ◌*◌, ◌/◌, ◌^◌, Bool, true, Option, none, some, List, [], ◌∷◌, ◌++◌, ltb, if◌then◌else◌,
  Bytes, codes,
}

pub data Status : Type 0 where
  checking_files downloading_metadata downloading finished seeding : Status
  checking_resume_data : Status
  other_status : ℕ → Status

unfoldable pub state : Status → Bytes
state checking_files = codes "checking"
state downloading_metadata = codes "dl metadata"
state downloading = codes "downloading"
state finished = codes "finished"
state seeding = codes "seeding"
state checking_resume_data = codes "checking resume"
state (other_status s) = codes "<>"

-- `lt::torrent_status`, as far as it is printed.
pub record TorrentStatus : Type 0 where
  pub status : Status
  pub download_payload_rate : ℕ
  pub total_done : ℕ
  pub progress_ppm : ℕ
  pub num_peers : ℕ

-- The alerts by their classes. A handle is `none` while it refers to no torrent; for the resume data
-- its bytes, as `write_resume_data_buf` gives them.
pub data Alert : Type 0 where
  add_torrent : Option ℕ → Alert
  torrent_finished : Alert
  torrent_error : Bytes → Alert
  save_resume_data : Bytes → Alert
  save_resume_data_failed : Alert
  state_update : List TorrentStatus → Alert
  other_alert : Alert

-- A line of the console: a message, or a state with its kB/s, kB, per cent and peers.
pub data Printed : Type 0 where
  message : Bytes → Printed
  row : Bytes → ℕ → ℕ → ℕ → ℕ → Printed

-- The variables of `main`; `requests` are the torrents whose resume data it has asked for, and
-- `resume_file` is what `.resume_file` holds. Time is in nanoseconds.
pub record Client : Type 0 where
  pub handle : Option ℕ
  pub done : Bool
  pub requests : List ℕ
  pub resume_file : Option Bytes
  pub printed : List Printed
  pub last_save : ℕ

-- `h.save_resume_data(…)`: a handle of no torrent throws, which is `none`.
unfoldable pub save_of : Option ℕ → Client → Option Client
save_of none c = none
save_of (some h) c = some (record c { requests = c.requests ++ (h ∷ []) })

unfoldable pub ask_save : Client → Option Client
ask_save c = save_of c.handle c

-- What an alert leads to: the next one, `break`, or an exception.
pub data Handled : Type 0 where
  next break : Client → Handled
  thrown : Handled

unfoldable pub next_or_thrown : Option Client → Handled
next_or_thrown none = thrown
next_or_thrown (some c) = next c

unfoldable pub break_if_done : Client → Handled
break_if_done c = if c.done then break c else next c

unfoldable pub print_row : List TorrentStatus → Client → Client
print_row [] c = c
print_row (s ∷ rest) c = record c {
  printed =
      c.printed
      ++ (row (state s.status) (s.download_payload_rate / 1000) (s.total_done / 1000)
            (s.progress_ppm / 10000) s.num_peers
          ∷ []);
}

-- `of.write` to a file that does not open writes nothing.
unfoldable pub store : Bool → Bytes → Client → Client
store opens b c = if opens then record c { resume_file = some b } else c

unfoldable pub handle_alert : Bool → Alert → Client → Handled
handle_alert opens (add_torrent h) c = next (record c { handle = h })
handle_alert opens torrent_finished c = elim (ask_save c) [
  | none ↦ thrown
  | some d ↦ next (record d { done = true })
]
handle_alert opens (torrent_error text) c =
    next_or_thrown (ask_save (record c { printed = c.printed ++ (message text ∷ []); done = true }))
handle_alert opens (save_resume_data b) c = break_if_done (store opens b c)
handle_alert opens save_resume_data_failed c = break_if_done c
handle_alert opens (state_update statuses) c = next (print_row statuses c)
handle_alert opens other_alert c = next c

-- The loop over the alerts; `none` is an exception.
unfoldable pub handle_alerts : Bool → List Alert → Client → Option Client
handle_alerts opens [] c = some c
handle_alerts opens (a ∷ alerts) c = elim (handle_alert opens a c) [
  | next d ↦ handle_alerts opens alerts d
  | break d ↦ some d
  | thrown ↦ none
]

-- One round's answers: the alerts, whether a SIGINT has set `shut_down`, the torrents, whether
-- `.resume_file` opens, and the two readings of the clock.
pub record Round : Type 0 where
  pub alerts : List Alert
  pub shut_down : Bool
  pub torrents : List ℕ
  pub opens : Bool
  pub now : ℕ
  pub now_again : ℕ

abbrev pub seconds : ℕ → ℕ
seconds n = n * 10 ^ 9

-- How a round ends: with the test of the loop, or with an exception.
pub data Ended : Type 0 where
  tested : Client → Ended
  caught : Ended

-- Behind the alerts: the save once every 30 seconds.
unfoldable pub save_by_time : Round → Client → Ended
save_by_time r c =
    if ltb (seconds 30) (r.now - c.last_save)
    then (elim (ask_save c) [
      | none ↦ caught
      | some d ↦ tested (record d { last_save = r.now_again })
    ])
    else tested c

unfoldable pub behind_alerts : Round → Option Client → Ended
behind_alerts r none = caught
behind_alerts r (some c) = save_by_time r c

-- The `break` of a SIGINT with one torrent; its handle comes from the session and is valid.
unfoldable pub by_torrents : List ℕ → Round → Client → Ended
by_torrents (h ∷ []) r c = tested (record c { requests = c.requests ++ (h ∷ []); done = true })
by_torrents _ r c = behind_alerts r (handle_alerts r.opens r.alerts c)

unfoldable pub interrupted : Round → Client → Ended
interrupted r c = by_torrents r.torrents r c

unfoldable pub round : Round → Client → Ended
round r c =
    if r.shut_down then interrupted r c else behind_alerts r (handle_alerts r.opens r.alerts c)

-- The end of the program, which returns 0 in both cases, or the client at the end of the script.
pub data Result : Type 0 where
  shutting_down running : Client → Result
  error : Result

unfoldable pub run : List Round → Client → Result
run [] c = running c
run (r ∷ rounds) c = elim (round r c) [
  | caught ↦ error
  | tested d ↦ (let more = run rounds d in if d.done then shutting_down d else more)
]
