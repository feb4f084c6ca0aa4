-- ===== src/Qt/Server/Window/Clients.antt =====
-- What each client of the Qt server gets, whatever the other clients say.
use cpp_network_homework.Prelude.{
  ℕ, ◌+◌, ◌≡◌, refl, sym, ap, subst, ◌∙◌, true, some, List, [], ◌∷◌, ◌++◌, append-nil, append_assoc,
  arith, length, All, get_elem?, Bytes, codes,
}
use cpp_network_homework.Qt.Stream.{Text, IsQt}
use cpp_network_homework.Qt.Frame.{frame}
use cpp_network_homework.Qt.Server.{Qt}
use cpp_network_homework.Qt.Server.Replies.{IsWhole, reply_to, replies_to}
use cpp_network_homework.Qt.Server.Window.{
  Peer, Window, construct, connects, leaves, accept, call_slot, on_event, run,
}
use cpp_network_homework.Qt.Server.Window.Turns.{
  Turn, joins, talks, departs, IsTurn, events_of_turn, events_of, said, still, said_by, joined,
  IsIdle, run-append, on_event_open,
}
use cpp_network_homework.Qt.Server.Window.Idle.{IsAnswered}
use cpp_network_homework.Qt.Server.Window.Answered.{turn_talks, turn_departs, turn_joins}
use cpp_network_homework.Qt.Server.Window.Shape.{arrivals-shape, leave-shape}

module _ {K : Type 0} (qt : Qt K) (sent : K → Bytes) (whole : IsWhole qt sent)
    (q : IsQt qt.stream) where
  turn-IsAnswered :
      (t : Turn K) (w : Window K)
      → IsIdle w
      → w.listening ≡ true
      → IsTurn qt t
      → IsAnswered qt sent w t (run qt (events_of_turn t) w)
  unfolding run call_slot
  turn-IsAnswered (joins k) w idle l h =
      subst (IsAnswered qt sent w (joins k)) (sym (on_event_open qt (connects k) w idle.2))
        (turn_joins qt sent whole q w k idle l).0
  turn-IsAnswered (talks i ms cs) w idle l h =
      turn_talks qt sent whole q w i ms cs (get_elem? w.peers i) idle h refl
  turn-IsAnswered (departs i) w idle l h =
      subst (IsAnswered qt sent w (departs i)) (sym (on_event_open qt (leaves i) w idle.2))
        (turn_departs qt sent whole q w i (get_elem? w.peers i) idle refl)

  turn-shape :
      (t : Turn K) (w : Window K)
      → IsIdle w
      → w.listening ≡ true
      → ((run qt (events_of_turn t) w).listening ≡ true)
        × (length (run qt (events_of_turn t) w).peers ≡ length w.peers + joined (t ∷ []))
  unfolding run call_slot
  turn-shape (joins k) w idle l =
      subst
        (λ v.
          (v.listening ≡ true) × (length v.peers ≡ length w.peers + joined {K = K} (joins k ∷ [])))
        (sym (on_event_open qt (connects k) w idle.2))
        ((unfold accept in rw l refl), (turn_joins qt sent whole q w k idle l).2 ∙ omega arith)
  turn-shape (talks i ms cs) w idle l =
      let s = arrivals-shape qt i cs w in (s.0 ∙ l, s.1 ∙ omega arith)
  turn-shape (departs i) w idle l =
      let s = leave-shape qt i w (get_elem? w.peers i) in
      subst
        (λ v.
          (v.listening ≡ true)
          × (length v.peers ≡ length w.peers + joined {K = K} (departs i ∷ [])))
        (sym (on_event_open qt (leaves i) w idle.2)) (s.0 ∙ l, s.1 ∙ omega arith)

  joined-cons : (t : Turn K) (ts : List (Turn K)) → joined (t ∷ ts) ≡ joined (t ∷ []) + joined ts
  joined-cons (joins k) ts = omega arith
  joined-cons (talks i ms cs) ts = omega arith
  joined-cons (departs i) ts = omega arith

  turns-shape :
      (ts : List (Turn K)) (w : Window K)
      → IsIdle w
      → w.listening ≡ true
      → All (IsTurn qt) ts
      → IsIdle (run qt (events_of ts) w)
        × ((run qt (events_of ts) w).listening ≡ true)
        × (length (run qt (events_of ts) w).peers ≡ length w.peers + joined ts)
  unfolding run
  turns-shape [] w idle l h = (idle, l, omega arith)
  turns-shape (t ∷ ts) w idle l (h, hs) =
      let v = run qt (events_of_turn t) w in
      let e = run-append qt (events_of_turn t) (events_of ts) w in
      let s = turn-shape t w idle l in
      let r = turns-shape ts v (turn-IsAnswered t w idle l h).0 s.0 hs in
      subst
        (λ (x : Window K).
          IsIdle x × (x.listening ≡ true) × (length x.peers ≡ length w.peers + joined (t ∷ ts)))
        (sym e) (r.0, r.1, omega (arith, r.2, s.1, joined-cons t ts))

  replies_to-append :
      (ms ns : List Text) → replies_to qt (ms ++ ns) ≡ replies_to qt ms ++ replies_to qt ns
  replies_to-append [] ns = refl
  replies_to-append (m ∷ ms) ns =
      ap (λ b. reply_to qt m ++ b) (replies_to-append ms ns)
      ∙ sym (append_assoc (reply_to qt m) (replies_to qt ms) (replies_to qt ns))

  -- In any turns a client gets the answers to what it says, in order, and no more.
  answered :
      (ts : List (Turn K)) (w : Window K) (j : ℕ) (p : Peer K)
      → IsIdle w
      → w.listening ≡ true
      → All (IsTurn qt) ts
      → get_elem? w.peers j ≡ some p
      → (p' : Peer K) × (get_elem? (run qt (events_of ts) w).peers j ≡ some p')
        × (sent p'.socket ≡ sent p.socket ++ replies_to qt (said_by p.connected j ts))
  unfolding run
  answered [] w j p idle l h g = (p, g, sym (append-nil (sent p.socket)))
  answered (t ∷ ts) w j p idle l (h, hs) g =
      let v = run qt (events_of_turn t) w in
      let a = turn-IsAnswered t w idle l h in
      let (p₁, there, sends, stays) = a.1 j p g in
      let (p₂, last, more) = answered ts v j p₁ a.0 (turn-shape t w idle l).0 hs there in
      let now = said p.connected j t in
      let later = said_by (still p.connected j t) j ts in
      (
        p₂,
        ap (λ x. get_elem? x.peers j) (run-append qt (events_of_turn t) (events_of ts) w) ∙ last,
        more
            ∙ ap (λ c. sent p₁.socket ++ replies_to qt (said_by c j ts)) stays
            ∙ ap (λ b. b ++ replies_to qt later) sends
            ∙ append_assoc (sent p.socket) (replies_to qt now) (replies_to qt later)
            ∙ ap (λ b. sent p.socket ++ b) (sym (replies_to-append now later)),
      )

  events_of-append : (ts us : List (Turn K)) → events_of (ts ++ us) ≡ events_of ts ++ events_of us
  events_of-append [] us = refl
  events_of-append (t ∷ ts) us =
      ap (λ es. events_of_turn t ++ es) (events_of-append ts us)
      ∙ sym (append_assoc (events_of_turn t) (events_of ts) (events_of us))

  -- A server that listens, with any number of clients: one that connects, behind any turns, gets
  -- the greeting and then the answers to its own messages, each once and in order, up to where it
  -- is disconnected, whatever the other clients say before and behind; and its messages are read
  -- whole. No client sends the command to leave, which would close the only window and so end the
  -- program. Messages fit their size fields, and come in any pieces; while one is under way, no other
  -- client sends. The sockets take whole blocks, and `QDataStream` reads back what it writes.
  pub joined-answered :
      (before after : List (Turn K)) (k : K)
      → All (IsTurn qt) before
      → All (IsTurn qt) after
      → (p : Peer K) × (get_elem?
            (run qt (events_of (before ++ (joins k ∷ after))) (construct K true)).peers
            (joined before)
          ≡ some p)
        × (sent p.socket
            ≡ sent k
              ++ (frame qt.stream (codes "Server Response: Connected!")
                  ++ replies_to qt (said_by true (joined before) after)))
        × (p.arrived ≡ [])
  unfolding construct run call_slot
  joined-answered before after k h₁ h₂ =
      let w = run qt (events_of before) (construct K true) in
      let (idle, l, n) =
        turns-shape before (construct K true) (refl, λ i p g. absurd (cc g), refl) refl h₁ in
      let (stands, (p, there, greeted, c), more) = turn_joins qt sent whole q w k idle l in
      let v = accept qt k w in
      let joins_now : on_event qt (connects k) w ≡ v = on_event_open qt (connects k) w idle.2 in
      let listens : v.listening ≡ true =
        ap (λ x. x.listening) (sym joins_now) ∙ (turn-shape (joins k) w idle l).0 in
      let all = turns-shape after v stands.0 listens h₂ in
      let (p', last, sends) = answered after v (length w.peers) p stands.0 listens h₂ there in
      let number : length w.peers ≡ joined before = omega (arith, n) in
      let runs : run qt (events_of (before ++ (joins k ∷ after))) (construct K true)
          ≡ run qt (events_of after) v =
        ap (λ es. run qt es (construct K true)) (events_of-append before (joins k ∷ after))
        ∙ run-append qt (events_of before) (events_of (joins k ∷ after)) (construct K true)
        ∙ ap (run qt (events_of after)) joins_now in
      let answers = λ (j : ℕ). replies_to qt (said_by true j after) in
      (
        p',
        ap (λ x. get_elem? x.peers (joined before)) runs
            ∙ subst (λ j. get_elem? (run qt (events_of after) v).peers j ≡ some p') number last,
        sends
            ∙ ap (λ b. sent p.socket ++ replies_to qt (said_by b (length w.peers) after)) c
            ∙ ap (λ j. sent p.socket ++ answers j) number
            ∙ ap (λ b. b ++ answers (joined before)) greeted
            ∙ append_assoc (sent k) (frame qt.stream (codes "Server Response: Connected!"))
                (answers (joined before)),
        all.0.1 (length w.peers) p' last,
      )
