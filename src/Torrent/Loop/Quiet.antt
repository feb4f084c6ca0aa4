-- ===== src/Torrent/Loop/Quiet.antt =====
-- The rounds in which nothing ends the program.
use cpp_network_homework.Prelude.{
  ℕ, ◌-◌, ◌≡◌, refl, sym, ap, ◌∙◌, ◌≢◌, inl, inr, Bool, true, false, Option, none, some, List, [],
  ◌∷◌, ◌++◌, append-nil, ltb, if◌then◌else◌, Bool-cases, length, All, Bytes,
}
use cpp_network_homework.Torrent.Loop.{
  Alert, add_torrent, torrent_finished, torrent_error, save_resume_data, save_resume_data_failed,
  state_update, other_alert, Client, save_of, ask_save, Handled, next, break, thrown, break_if_done,
  print_row, store, handle_alert, handle_alerts, Round, seconds, Ended, tested, caught,
  save_by_time, behind_alerts, by_torrents, interrupted, round, Result, shutting_down, running,
  error, run,
}

-- The client has the handle of its torrent, and is not done.
unfoldable pub IsReady : Client → Type 0
IsReady c = ((h : ℕ) × (c.handle ≡ some h)) × (c.done ≡ false)

-- Neither the end nor an error of the torrent, and no handle of no torrent.
unfoldable pub IsQuietAlert : Alert → Type 0
IsQuietAlert (add_torrent none) = ⊥
IsQuietAlert (add_torrent (some h)) = Unit
IsQuietAlert torrent_finished = ⊥
IsQuietAlert (torrent_error text) = ⊥
IsQuietAlert (save_resume_data b) = Unit
IsQuietAlert save_resume_data_failed = Unit
IsQuietAlert (state_update statuses) = Unit
IsQuietAlert other_alert = Unit

-- A SIGINT may come, but not with one torrent.
unfoldable pub IsQuiet : Round → Type 0
IsQuiet r = All IsQuietAlert r.alerts × (r.shut_down ≡ true → length r.torrents ≢ 1)

-- What the file holds behind the alerts, if it held `file`: the data that came last.
unfoldable pub last_saved : Bool → List Alert → Option Bytes → Option Bytes
last_saved opens [] file = file
last_saved opens (save_resume_data b ∷ alerts) file =
    last_saved opens alerts (if opens then some b else file)
last_saved opens (a ∷ alerts) file = last_saved opens alerts file

unfoldable pub last_saved_of : List Round → Option Bytes → Option Bytes
last_saved_of [] file = file
last_saved_of (r ∷ rounds) file = last_saved_of rounds (last_saved r.opens r.alerts file)

-- A client that goes on, with this in its file.
unfoldable pub GoesOn : Option Bytes → Client → Type 0
GoesOn file c = IsReady c × (c.resume_file ≡ file)

pub break_if_done-next : (c : Client) → c.done ≡ false → break_if_done c ≡ next c
unfolding break_if_done
break_if_done-next c e = simp e

pub ask_save-some :
    (c : Client) (h : ℕ)
    → c.handle ≡ some h
    → ask_save c ≡ some (record c { requests = c.requests ++ (h ∷ []) })
unfolding ask_save save_of
ask_save-some c h e = ap (λ o. save_of o c) e

-- The loop behind one alert.
abbrev pub behind_alert : Bool → List Alert → Handled → Option Client
behind_alert opens alerts (next d) = handle_alerts opens alerts d
behind_alert opens alerts (break d) = some d
behind_alert opens alerts thrown = none

pub handle_alerts_step :
    (opens : Bool) (a : Alert) (alerts : List Alert) (c : Client) (r : Handled)
    → handle_alert opens a c ≡ r
    → handle_alerts opens (a ∷ alerts) c ≡ behind_alert opens alerts r
unfolding handle_alerts
handle_alerts_step opens a alerts c r e =
    cases_on (handle_alert opens a c) ∙ ap (behind_alert opens alerts) e
  where
    cases_on :
        (h : Handled)
        → (elim h [ next d ↦ handle_alerts opens alerts d | break d ↦ some d | thrown ↦ none ])
          ≡ behind_alert opens alerts h
    cases_on (next d) = refl
    cases_on (break d) = refl
    cases_on thrown = refl

pub alerts_quiet :
    (opens : Bool) (alerts later : List Alert) (c : Client)
    → IsReady c
    → All IsQuietAlert alerts
    → (d : Client) × (handle_alerts opens (alerts ++ later) c ≡ handle_alerts opens later d)
      × GoesOn (last_saved opens alerts c.resume_file) d
unfolding IsReady GoesOn last_saved handle_alerts handle_alert IsQuietAlert break_if_done store
    print_row
alerts_quiet opens [] later c ready q = (c, refl, (ready, refl))
alerts_quiet opens (add_torrent none ∷ alerts) later c ready (q, qs) = absurd q
alerts_quiet opens (add_torrent (some h) ∷ alerts) later c ready (q, qs) =
    alerts_quiet opens alerts later (record c { handle = some h }) ((h, refl), ready.1) qs
alerts_quiet opens (torrent_finished ∷ alerts) later c ready (q, qs) = absurd q
alerts_quiet opens (torrent_error text ∷ alerts) later c ready (q, qs) = absurd q
alerts_quiet false (save_resume_data b ∷ alerts) later c ready (q, qs) =
    let (d, e, on) = alerts_quiet false alerts later c ready qs in
    (
      d,
      handle_alerts_step false (save_resume_data b) (alerts ++ later) c _
            (break_if_done-next c ready.1)
          ∙ e,
      on,
    )
alerts_quiet true (save_resume_data b ∷ alerts) later c ready (q, qs) =
    let stored = record c { resume_file = some b } in
    let (d, e, on) = alerts_quiet true alerts later stored ready qs in
    (
      d,
      handle_alerts_step true (save_resume_data b) (alerts ++ later) c _
            (break_if_done-next stored ready.1)
          ∙ e,
      on,
    )
alerts_quiet opens (save_resume_data_failed ∷ alerts) later c ready (q, qs) =
    let (d, e, on) = alerts_quiet opens alerts later c ready qs in
    (
      d,
      handle_alerts_step opens save_resume_data_failed (alerts ++ later) c _
            (break_if_done-next c ready.1)
          ∙ e,
      on,
    )
alerts_quiet opens (state_update [] ∷ alerts) later c ready (q, qs) =
    alerts_quiet opens alerts later c ready qs
alerts_quiet opens (state_update (s ∷ rest) ∷ alerts) later c ready (q, qs) =
    alerts_quiet opens alerts later (print_row (s ∷ rest) c) ready qs
alerts_quiet opens (other_alert ∷ alerts) later c ready (q, qs) =
    alerts_quiet opens alerts later c ready qs

pub handle_alerts-quiet :
    (opens : Bool) (alerts : List Alert) (c : Client)
    → IsReady c
    → All IsQuietAlert alerts
    → (d : Client) × (handle_alerts opens alerts c ≡ some d)
      × GoesOn (last_saved opens alerts c.resume_file) d
unfolding handle_alerts
handle_alerts-quiet opens alerts c ready q =
    let (d, e, on) = alerts_quiet opens alerts [] c ready q in
    (d, ap (λ a. handle_alerts opens a c) (sym (append-nil alerts)) ∙ e, on)

pub save_by_time-ready :
    (r : Round) (c : Client)
    → IsReady c
    → (d : Client) × (save_by_time r c ≡ tested d) × GoesOn c.resume_file d
unfolding save_by_time IsReady GoesOn
save_by_time-ready r c ((h, e), n) = elim (Bool-cases (ltb (seconds 30) (r.now - c.last_save))) [
  | inl late ↦ (
    record c { requests = c.requests ++ (h ∷ []); last_save = r.now_again },
    simp (late, ask_save-some c h e),
    (((h, e), n), refl),
  )
  | inr early ↦ (c, simp early, (((h, e), n), refl))
]

by_torrents-alerts :
    (r : Round) (c : Client) (torrents : List ℕ)
    → length torrents ≢ 1
    → by_torrents torrents r c ≡ behind_alerts r (handle_alerts r.opens r.alerts c)
unfolding by_torrents
by_torrents-alerts r c [] ne = refl
by_torrents-alerts r c (h ∷ []) ne = absurd (ne refl)
by_torrents-alerts r c (h ∷ k ∷ hs) ne = refl

pub round-alerts :
    (r : Round) (c : Client)
    → (r.shut_down ≡ true → length r.torrents ≢ 1)
    → round r c ≡ behind_alerts r (handle_alerts r.opens r.alerts c)
unfolding round interrupted
round-alerts r c not_one = elim (Bool-cases r.shut_down) [
  | inl e ↦ simp e (by_torrents-alerts r c r.torrents (not_one e))
  | inr e ↦ simp e
]

pub run_tested :
    (r : Round) (rounds : List Round) (c d : Client)
    → round r c ≡ tested d
    → d.done ≡ false
    → run (r ∷ rounds) c ≡ run rounds d
unfolding run
run_tested r rounds c d e n = ap (behind_round rounds) e ∙ ap test n
  where
    behind_round : List Round → Ended → Result
    behind_round rounds caught = error
    behind_round rounds (tested d) = if d.done then shutting_down d else run rounds d

    test : Bool → Result
    test b = if b then shutting_down d else run rounds d

pub run_quiet :
    (rounds more : List Round) (c : Client)
    → IsReady c
    → All IsQuiet rounds
    → (d : Client) × (run (rounds ++ more) c ≡ run more d)
      × GoesOn (last_saved_of rounds c.resume_file) d
unfolding GoesOn last_saved_of IsQuiet behind_alerts IsReady
run_quiet [] more c ready quiet = (c, refl, (ready, refl))
run_quiet (r ∷ rounds) more c ready (q, qs) =
    let (d, e, (ready', kept)) = handle_alerts-quiet r.opens r.alerts c ready q.0 in
    let (d', e', (ready'', kept')) = save_by_time-ready r d ready' in
    let (last, goes_on, (ready₃, kept₃)) = run_quiet rounds more d' ready'' qs in
    let tested = round-alerts r c q.1 ∙ ap (behind_alerts r) e ∙ e' in
    (
      last,
      run_tested r (rounds ++ more) c d' tested ready''.1 ∙ goes_on,
      (ready₃, kept₃ ∙ ap (last_saved_of rounds) (kept' ∙ kept)),
    )

-- A client that has its torrent's handle stays in the loop over rounds in which the torrent neither
-- ends nor fails, and no SIGINT meets exactly one torrent: its handle stays set, and `.resume_file`
-- holds the resume data that came last while the file opened, or what it held before.
pub run-last_saved_of :
    (rounds : List Round) (c : Client)
    → IsReady c
    → All IsQuiet rounds
    → (d : Client) × (run rounds c ≡ running d) × GoesOn (last_saved_of rounds c.resume_file) d
unfolding run
run-last_saved_of rounds c ready quiet =
    let (d, e, on) = run_quiet rounds [] c ready quiet in
    (d, ap (λ rs. run rs c) (sym (append-nil rounds)) ∙ e, on)
