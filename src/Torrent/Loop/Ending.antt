-- ===== src/Torrent/Loop/Ending.antt =====
-- How the loop ends, and what it then has not saved.
use cpp_network_homework.Prelude.{
  ℕ, ◌-◌, ◌≡◌, refl, ap, ◌∙◌, ◌≢◌, inl, inr, Bool, true, Option, none, some, List, [], ◌∷◌, ◌++◌,
  ltb, if◌then◌else◌, Bool-cases, length, All, Bytes,
}
use cpp_network_homework.Torrent.Loop.{
  Alert, add_torrent, torrent_finished, torrent_error, save_resume_data, save_resume_data_failed,
  state_update, other_alert, message, Client, ask_save, Handled, next, break, thrown,
  next_or_thrown, break_if_done, print_row, handle_alert, handle_alerts, Round, seconds, Ended,
  tested, caught, save_by_time, behind_alerts, by_torrents, interrupted, round, Result,
  shutting_down, error, run,
}
use cpp_network_homework.Torrent.Loop.Quiet.{
  IsReady, IsQuietAlert, IsQuiet, last_saved, last_saved_of, GoesOn, ask_save-some,
  handle_alerts_step, alerts_quiet, round-alerts, run_quiet,
}

-- An alert that writes no resume data.
unfoldable pub IsNoData : Alert → Type 0
IsNoData (save_resume_data b) = ⊥
IsNoData a = Unit

-- A client that has asked for the resume data of its torrent and is done, with this in its file.
pub IsDone : Option Bytes → Client → Type 0
IsDone file c = (c.done ≡ true) × (c.resume_file ≡ file) × ((h : ℕ) × (c.handle ≡ some h))

break_if_done-break : (c : Client) → c.done ≡ true → break_if_done c ≡ break c
unfolding break_if_done
break_if_done-break c e = simp e

-- Once done, the rest of the alerts leaves the file as it is, if none of them has resume data.
pub handle_alerts-IsDone :
    (opens : Bool) (file : Option Bytes) (alerts : List Alert) (c : Client)
    → IsDone file c
    → All IsNoData alerts
    → All IsQuietAlert alerts
    → (d : Client) × (handle_alerts opens alerts c ≡ some d) × IsDone file d
unfolding IsDone IsNoData IsQuietAlert handle_alerts handle_alert print_row
handle_alerts-IsDone opens file [] c is_done q k = (c, refl, is_done)
handle_alerts-IsDone opens file (add_torrent none ∷ alerts) c is_done q (k, ks) = absurd k
handle_alerts-IsDone opens file (add_torrent (some h) ∷ alerts) c (e, f, g) (q, qs) (k, ks) =
    handle_alerts-IsDone opens file alerts (record c { handle = some h }) (e, f, (h, refl)) qs ks
handle_alerts-IsDone opens file (torrent_finished ∷ alerts) c is_done q (k, ks) = absurd k
handle_alerts-IsDone opens file (torrent_error text ∷ alerts) c is_done q (k, ks) = absurd k
handle_alerts-IsDone opens file (save_resume_data b ∷ alerts) c is_done (q, qs) (k, ks) = absurd q
handle_alerts-IsDone opens file (save_resume_data_failed ∷ alerts) c is_done (q, qs) (k, ks) = (
  c,
  handle_alerts_step opens save_resume_data_failed alerts c (break c)
      (break_if_done-break c is_done.0),
  is_done,
)
handle_alerts-IsDone opens file (state_update [] ∷ alerts) c is_done (q, qs) (k, ks) =
    handle_alerts-IsDone opens file alerts c is_done qs ks
handle_alerts-IsDone opens file (state_update (s ∷ rest) ∷ alerts) c is_done (q, qs) (k, ks) =
    handle_alerts-IsDone opens file alerts (print_row (s ∷ rest) c) is_done qs ks
handle_alerts-IsDone opens file (other_alert ∷ alerts) c is_done (q, qs) (k, ks) =
    handle_alerts-IsDone opens file alerts c is_done qs ks

-- The alerts that end the program.
unfoldable pub IsEnd : Alert → Type 0
IsEnd torrent_finished = Unit
IsEnd (torrent_error text) = Unit
IsEnd a = ⊥

handle_alert-IsDone :
    (opens : Bool) (a : Alert) (c : Client)
    → IsReady c
    → IsEnd a
    → (d : Client) × (handle_alert opens a c ≡ next d) × IsDone c.resume_file d
unfolding handle_alert IsDone IsReady IsEnd next_or_thrown ask_save
handle_alert-IsDone opens (add_torrent _) c _ i = absurd i
handle_alert-IsDone opens (save_resume_data _) c _ i = absurd i
handle_alert-IsDone opens save_resume_data_failed c _ i = absurd i
handle_alert-IsDone opens (state_update _) c _ i = absurd i
handle_alert-IsDone opens other_alert c _ i = absurd i
handle_alert-IsDone opens torrent_finished c ((h, e), n) i = (
  record c { requests = c.requests ++ (h ∷ []); done = true },
  ap finish (ask_save-some c h e),
  (refl, refl, (h, e)),
)
  where
    finish : Option Client → Handled
    finish none = thrown
    finish (some d) = next (record d { done = true })
handle_alert-IsDone opens (torrent_error text) c ((h, e), n) i =
    let failed = record c { printed = c.printed ++ (message text ∷ []); done = true } in
    (
      record failed { requests = c.requests ++ (h ∷ []) },
      ap next_or_thrown (ask_save-some failed h e),
      (refl, refl, (h, e)),
    )

save_by_time-IsDone :
    (r : Round) (c : Client) (file : Option Bytes)
    → IsDone file c
    → (d : Client) × (save_by_time r c ≡ tested d) × IsDone file d
unfolding save_by_time IsDone
save_by_time-IsDone r c file (e, f, (h, g)) =
    elim (Bool-cases (ltb (seconds 30) (r.now - c.last_save))) [
      | inl late ↦ (
        record c { requests = c.requests ++ (h ∷ []); last_save = r.now_again },
        simp (late, ask_save-some c h g),
        (e, f, (h, g)),
      )
      | inr early ↦ (c, simp early, (e, f, (h, g)))
    ]

run_done :
    (r : Round) (rounds : List Round) (c d : Client)
    → round r c ≡ tested d
    → d.done ≡ true
    → run (r ∷ rounds) c ≡ shutting_down d
unfolding run
run_done r rounds c d e n = ap (behind_round rounds) e ∙ ap test n
  where
    behind_round : List Round → Ended → Result
    behind_round rounds caught = error
    behind_round rounds (tested d) = if d.done then shutting_down d else run rounds d

    test : Bool → Result
    test b = if b then shutting_down d else run rounds d

-- The round in which the torrent ends or fails is the last: the resume data that the program asks
-- for then is not waited for. After quiet rounds, and alerts `before` that are quiet, if no alert
-- behind the end has resume data, the program shuts down and `.resume_file` holds the data that had
-- come before the end.
pub run_ended :
    (rounds more : List Round) (r : Round) (before later : List Alert) (a : Alert) (c : Client)
    → IsReady c
    → All IsQuiet rounds
    → (r.shut_down ≡ true → length r.torrents ≢ 1)
    → r.alerts ≡ before ++ (a ∷ later)
    → All IsQuietAlert before
    → IsEnd a
    → All IsNoData later
    → All IsQuietAlert later
    → (d : Client) × (run (rounds ++ (r ∷ more)) c ≡ shutting_down d)
      × (d.resume_file ≡ last_saved r.opens before (last_saved_of rounds c.resume_file))
unfolding IsDone GoesOn behind_alerts
run_ended rounds more r before later a c ready quiet not_one alerts q end no_data q' =
    let (d, e, (ready', kept)) = run_quiet rounds (r ∷ more) c ready quiet in
    let (d₁, e₁, (ready₁, kept₁)) = alerts_quiet r.opens before (a ∷ later) d ready' q in
    let (d₂, e₂, done₂) = handle_alert-IsDone r.opens a d₁ ready₁ end in
    let (d₃, e₃, done₃) = handle_alerts-IsDone r.opens d₁.resume_file later d₂ done₂ no_data q' in
    let (d₄, e₄, done₄) = save_by_time-IsDone r d₃ d₁.resume_file done₃ in
    let handled : handle_alerts r.opens r.alerts d ≡ some d₃ =
      ap (λ x. handle_alerts r.opens x d) alerts
      ∙ (e₁ ∙ (handle_alerts_step r.opens a later d₁ (next d₂) e₂ ∙ e₃)) in
    let ends = round-alerts r d not_one ∙ (ap (behind_alerts r) handled ∙ e₄) in
    (
      d₄,
      e ∙ run_done r more d d₄ ends done₄.0,
      done₄.1 ∙ (kept₁ ∙ ap (last_saved r.opens before) kept),
    )

-- A SIGINT while the session has one torrent ends the program, and loses what the same round has
-- popped: after quiet rounds `.resume_file` holds the data that had come in them, whatever the
-- alerts of the round of the SIGINT are.
pub run_interrupted :
    (rounds more : List Round) (r : Round) (h : ℕ) (c : Client)
    → IsReady c
    → All IsQuiet rounds
    → r.shut_down ≡ true
    → r.torrents ≡ h ∷ []
    → (d : Client) × (run (rounds ++ (r ∷ more)) c ≡ shutting_down d)
      × (d.resume_file ≡ last_saved_of rounds c.resume_file)
unfolding round interrupted by_torrents GoesOn
run_interrupted rounds more r h c ready quiet signal single =
    let (d, e, (ready', kept)) = run_quiet rounds (r ∷ more) c ready quiet in
    let last = record d { requests = d.requests ++ (h ∷ []); done = true } in
    let ends : round r d ≡ tested last =
      ap (λ b. if b then interrupted r d else behind_alerts r (handle_alerts r.opens r.alerts d))
        signal
      ∙ ap (λ hs. by_torrents hs r d) single in
    (last, e ∙ run_done r more d last ends refl, kept)
