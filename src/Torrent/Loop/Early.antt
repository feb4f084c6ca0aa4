-- ===== src/Torrent/Loop/Early.antt =====
-- The rounds before the alert that the torrent is added.
use cpp_network_homework.Prelude.{
  ℕ, ◌-◌, ◌≡◌, refl, sym, ap, ◌∙◌, ◌≢◌, Bool, true, false, Option, some, List, [], ◌∷◌, ◌++◌,
  append-nil, ltb, if◌then◌else◌, length, All, Bytes,
}
use cpp_network_homework.Torrent.Loop.{
  Alert, add_torrent, torrent_finished, torrent_error, save_resume_data, save_resume_data_failed,
  state_update, other_alert, Client, break_if_done, print_row, handle_alert, handle_alerts, Round,
  seconds, Ended, tested, caught, save_by_time, behind_alerts, round, Result, shutting_down, error,
  run,
}
use cpp_network_homework.Torrent.Loop.Quiet.{
  IsReady, GoesOn, break_if_done-next, handle_alerts_step, round-alerts, run_tested,
}

-- An alert that is about no torrent.
unfoldable pub IsEarlyAlert : Alert → Type 0
IsEarlyAlert (add_torrent h) = ⊥
IsEarlyAlert torrent_finished = ⊥
IsEarlyAlert (torrent_error text) = ⊥
IsEarlyAlert (save_resume_data b) = ⊥
IsEarlyAlert save_resume_data_failed = Unit
IsEarlyAlert (state_update statuses) = Unit
IsEarlyAlert other_alert = Unit

-- A round less than 30 seconds behind the start, in which no SIGINT meets one torrent.
unfoldable pub IsEarly : ℕ → Round → Type 0
IsEarly started r =
    All IsEarlyAlert r.alerts
    × (r.shut_down ≡ true → length r.torrents ≢ 1)
    × (ltb (seconds 30) (r.now - started) ≡ false)

-- A client that has started and has done nothing yet.
unfoldable pub IsWaiting : ℕ → Option Bytes → Client → Type 0
IsWaiting started file c = (c.done ≡ false) × (c.resume_file ≡ file) × (c.last_save ≡ started)

pub alerts_early :
    (started : ℕ) (file : Option Bytes) (opens : Bool) (alerts later : List Alert) (c : Client)
    → IsWaiting started file c
    → All IsEarlyAlert alerts
    → (d : Client) × (handle_alerts opens (alerts ++ later) c ≡ handle_alerts opens later d)
      × IsWaiting started file d
unfolding IsEarlyAlert IsWaiting handle_alerts handle_alert break_if_done print_row
alerts_early started file opens [] later c w h = (c, refl, w)
alerts_early started file opens (add_torrent x ∷ alerts) later c w (h, hs) = absurd h
alerts_early started file opens (torrent_finished ∷ alerts) later c w (h, hs) = absurd h
alerts_early started file opens (torrent_error text ∷ alerts) later c w (h, hs) = absurd h
alerts_early started file opens (save_resume_data b ∷ alerts) later c w (h, hs) = absurd h
alerts_early started file opens (save_resume_data_failed ∷ alerts) later c w (h, hs) =
    let (d, e, on) = alerts_early started file opens alerts later c w hs in
    (
      d,
      handle_alerts_step opens save_resume_data_failed (alerts ++ later) c _
            (break_if_done-next c w.0)
          ∙ e,
      on,
    )
alerts_early started file opens (state_update [] ∷ alerts) later c w (h, hs) =
    alerts_early started file opens alerts later c w hs
alerts_early started file opens (state_update (s ∷ rest) ∷ alerts) later c w (h, hs) =
    alerts_early started file opens alerts later (print_row (s ∷ rest) c) w hs
alerts_early started file opens (other_alert ∷ alerts) later c w (h, hs) =
    alerts_early started file opens alerts later c w hs

save_by_time-early :
    (started : ℕ) (file : Option Bytes) (r : Round) (c : Client)
    → IsWaiting started file c
    → ltb (seconds 30) (r.now - started) ≡ false
    → save_by_time r c ≡ tested c
unfolding save_by_time IsWaiting
save_by_time-early started file r c w early =
    let e : ltb (seconds 30) (r.now - c.last_save) ≡ false =
      ap (λ t. ltb (seconds 30) (r.now - t)) w.2 ∙ early in
    simp e

-- The client goes on through such rounds, and has done nothing.
pub run_early :
    (started : ℕ) (file : Option Bytes) (rounds more : List Round) (c : Client)
    → IsWaiting started file c
    → All (IsEarly started) rounds
    → (d : Client) × (run (rounds ++ more) c ≡ run more d) × IsWaiting started file d
unfolding IsEarly behind_alerts handle_alerts
run_early started file [] more c w h = (c, refl, w)
run_early started file (r ∷ rounds) more c w ((alerts, not_one, early), hs) =
    let (d, e, w₁) = alerts_early started file r.opens r.alerts [] c w alerts in
    let (last, goes_on, w₂) = run_early started file rounds more d w₁ hs in
    let whole = ap (λ a. handle_alerts r.opens a c) (sym (append-nil r.alerts)) ∙ e in
    let ends =
      round-alerts r c not_one
      ∙ ap (behind_alerts r) whole
      ∙ save_by_time-early started file r d w₁ early in
    (last, run_tested r (rounds ++ more) c d ends (unfold IsWaiting in w₁.0) ∙ goes_on, w₂)

-- A round in which the torrent is added behind some alerts, and then the alerts of another one.
abbrev pub adding : List Alert → ℕ → Round → Round
adding before h r = record r { alerts = before ++ (add_torrent (some h) ∷ r.alerts) }

-- The handle that the alert brings.
pub run-adding :
    (started : ℕ) (file : Option Bytes) (early : List Round) (before : List Alert) (h : ℕ)
    (r : Round) (rounds : List Round) (c : Client)
    → IsWaiting started file c
    → All (IsEarly started) early
    → All IsEarlyAlert before
    → (r.shut_down ≡ true → length r.torrents ≢ 1)
    → (d : Client) × (run (early ++ (adding before h r ∷ rounds)) c ≡ run (r ∷ rounds) d)
      × GoesOn file d
unfolding GoesOn IsReady IsWaiting run handle_alerts handle_alert behind_alerts round save_by_time
run-adding started file early before h r rounds c w es bs not_one =
    let (d, goes_on, w₁) = run_early started file early (adding before h r ∷ rounds) c w es in
    let (d₂, e, w₂) =
      alerts_early started file r.opens before (add_torrent (some h) ∷ r.alerts) d w₁ bs in
    let ready = record d₂ { handle = some h } in
    let same : round (adding before h r) d ≡ round r ready =
      round-alerts (adding before h r) d not_one
      ∙ ap (behind_alerts r) e
      ∙ sym (round-alerts r ready not_one) in
    (ready, goes_on ∙ ap (behind rounds) same, (((h, refl), w₂.0), w₂.1))
  where
    behind : List Round → Ended → Result
    behind rs caught = error
    behind rs (tested d) = if d.done then shutting_down d else run rs d
