-- ===== src/Qt/Server/Window/Answered.antt =====
-- What each kind of turn does to the clients of the Qt server.
use cpp_network_homework.Prelude.{
  ℕ, zero, suc, ◌≡◌, refl, sym, ap, subst, ◌∙◌, inl, inr, Bool, true, false, ◌&&◌, Option, none,
  some, some-injective, List, [], ◌∷◌, ◌++◌, append-nil, arith, ◌==◌, if◌then◌else◌, Bool-cases,
  length, set, All, length-append, get_elem?, get_elem?-append, get_elem?-append_length, Bytes,
  codes,
}
use cpp_network_homework.Qt.Stream.{Text, IsQt}
use cpp_network_homework.Qt.Frame.{frame}
use cpp_network_homework.Qt.Reader.{Reader, feed_open, acts}
use cpp_network_homework.Qt.Server.{
  Qt, Server, reply, on_message, react, slot_read_client, slot_new_connection,
}
use cpp_network_homework.Qt.Server.Replies.{
  IsWhole, replies_to, leaves_server, acts-closed, sent-reply, sent-acts, slot_read_client-acts,
}
use cpp_network_homework.Qt.Server.Window.{
  Peer, Window, arrives, reader_of, behind, arrive, leave, accept, call_slot, on_event, run,
}
use cpp_network_homework.Qt.Server.Window.Turns.{
  Turn, joins, talks, departs, IsTurn, arrivals, said, still, IsIdle, on_event_open, run-arrivals,
  run-arrivals_deaf,
}
use cpp_network_homework.Qt.Reader.Reassembly.{OnlyLast}
use cpp_network_homework.Qt.Server.Window.Idle.{IsAnswered, set-IsIdle, set-peers}

none_leaves-OnlyLast :
    (kind : Text → Bool) (ms : List Text) → All (λ m. kind m ≡ false) ms → OnlyLast kind ms
none_leaves-OnlyLast kind [] h = tt
none_leaves-OnlyLast kind (m ∷ []) h = tt
none_leaves-OnlyLast kind (m ∷ n ∷ ms) (h, hs) = (h, none_leaves-OnlyLast kind (n ∷ ms) hs)

module _ {K : Type 0} (qt : Qt K) (sent : K → Bytes) (whole : IsWhole qt sent)
    (q : IsQt qt.stream) where
  -- Nothing that changes nothing is a turn of a client that is connected.
  nothing-IsAnswered :
      (w v : Window K) (t : Turn K)
      → IsIdle w
      → v ≡ w
      → ((j : ℕ) (p : Peer K)
          → get_elem? w.peers j ≡ some p
          → (said p.connected j t ≡ []) × (still p.connected j t ≡ p.connected))
      → IsAnswered qt sent w t v
  nothing-IsAnswered w v t idle same silent = subst (IsAnswered qt sent w t) (sym same) (
    idle,
    λ j p g. (
      p,
      g,
      sym (append-nil (sent p.socket))
          ∙ ap (λ l. sent p.socket ++ replies_to qt l) (sym (silent j p g).0),
      sym (silent j p g).1,
    ),
  )

  talks-IsAnswered :
      (w : Window K) (i : ℕ) (ms : List Text) (cs : List Bytes) (p : Peer K)
      → IsIdle w
      → IsTurn qt (talks i ms cs)
      → get_elem? w.peers i ≡ some p
      → p.connected ≡ true
      → IsAnswered qt sent w (talks i ms cs) (run qt (arrivals i cs) w)
  talks-IsAnswered w i ms cs p idle (short, others, cut) h c =
      let s : Server K = record {
        socket = p.socket;
        shown = w.shown;
        closed = w.closed;
        hung = w.hung;
      } in
      let fresh : Reader (Server K) = record { next_block_size = 0; arrived = []; state = s } in
      let a = acts (on_message qt) ms s in
      let is_fresh : reader_of qt w p ≡ fresh =
        λ i'. record { next_block_size = idle.0 i'; arrived = idle.1 i p h i'; state = s } in
      let sends = sent-acts qt sent whole ms s in
      let p' : Peer K = record p { socket = a.socket; arrived = [] } in
      let own : (i == i) && p.connected ≡ true = rw c (ground arith) in
      let v = record w {
        next_block_size = 0;
        peers = set w.peers i p';
        shown = a.shown;
        closed = a.closed;
        hung = a.hung;
      } in
      let set_idle = set-IsIdle qt sent w i p p' idle h refl in
      let runs : run qt (arrivals i cs) w ≡ v =
        run-arrivals qt i cs w p h c
        ∙ ap (λ x. behind qt i p w (feed_open qt.stream (react qt) (λ y. y.closed) x cs)) is_fresh
        ∙ ap (behind qt i p w) (
            slot_read_client-acts qt sent whole ms cs s q short
              (none_leaves-OnlyLast (leaves_server qt) ms others) idle.2 cut) in
      subst (IsAnswered qt sent w (talks i ms cs)) (sym runs) (
        (set_idle.0, set_idle.1, acts-closed qt ms s others ∙ idle.2),
        set-peers qt sent w i p p' (talks i ms cs) h (rw own sends) refl
            (λ j d e. (rw e refl, refl)),
      )

  -- A client that is not there, or is disconnected, says nothing.
  talks_deaf :
      (w : Window K) (i : ℕ) (ms : List Text) (cs : List Bytes)
      → IsIdle w
      → ((p : Peer K) → get_elem? w.peers i ≡ some p → p.connected ≡ false)
      → ((bytes : Bytes) → on_event qt (arrives i bytes) w ≡ w)
      → IsAnswered qt sent w (talks i ms cs) (run qt (arrivals i cs) w)
  talks_deaf w i ms cs idle gone deaf =
      nothing-IsAnswered w (run qt (arrivals i cs) w) (talks i ms cs) idle
        (run-arrivals_deaf qt i cs w deaf)
        (λ j p g. elim (Bool-cases (i == j)) [
          | inl e ↦
              let same : i ≡ j = ground arith in
              (rw (e, gone p (ap (get_elem? w.peers) same ∙ g)) refl, refl)
          | inr e ↦ (rw e refl, refl)
        ])

  pub turn_talks :
      (w : Window K) (i : ℕ) (ms : List Text) (cs : List Bytes) (o : Option (Peer K))
      → IsIdle w
      → IsTurn qt (talks i ms cs)
      → get_elem? w.peers i ≡ o
      → IsAnswered qt sent w (talks i ms cs) (run qt (arrivals i cs) w)
  unfolding call_slot arrive
  turn_talks w i ms cs none idle t h =
      talks_deaf w i ms cs idle (λ p g. absurd (cc (sym h ∙ g)))
        (λ b. on_event_open qt (arrives i b) w idle.2 ∙ ap (arrive qt i b w) h)
  turn_talks w i ms cs (some p) idle t h = elim (Bool-cases p.connected) [
    | inl c ↦ talks-IsAnswered w i ms cs p idle t h c
    | inr c ↦
        talks_deaf w i ms cs idle
          (λ p' g. let e : p ≡ p' = cc (sym h ∙ g) in ap (λ x. x.connected) (sym e) ∙ c)
          (λ b.
            on_event_open qt (arrives i b) w idle.2
            ∙ ap (arrive qt i b w) h
            ∙ ap (λ x. if x then behind qt i p w (slot_read_client qt (reader_of qt w p) b) else w)
                c)
  ]

  pub turn_departs :
      (w : Window K) (i : ℕ) (o : Option (Peer K))
      → IsIdle w
      → get_elem? w.peers i ≡ o
      → IsAnswered qt sent w (departs i) (leave qt i w o)
  unfolding leave
  turn_departs w i none idle h = nothing-IsAnswered w w (departs i) idle refl (λ j p g.
      elim (Bool-cases (i == j)) [
        | inl e ↦
            let same : i ≡ j = ground arith in
            absurd (cc (sym h ∙ (ap (get_elem? w.peers) same ∙ g)))
        | inr e ↦ (refl, rw e refl)
      ])
  turn_departs w i (some p) idle h =
      let p' : Peer K = record p { connected = false } in
      let own : (i == i) ≡ true = ground arith in
      let set_idle = set-IsIdle qt sent w i p p' idle h (idle.1 i p h) in
      (
        (idle.0, set_idle.1, idle.2),
        set-peers qt sent w i p p' (departs i) h (sym (append-nil (sent p.socket))) (rw own refl)
            (λ j c e. (refl, rw e refl)),
      )

  appended :
      (P : Peer K → Type 0) (ps : List (Peer K)) (p : Peer K)
      → P p
      → ((i : ℕ) (x : Peer K) → get_elem? ps i ≡ some x → P x)
      → (i : ℕ) (x : Peer K) → get_elem? (ps ++ (p ∷ [])) i ≡ some x
      → P x
  appended P [] p h all zero x g = subst P (some-injective p x g) h
  appended P [] p h all (suc i) x g = absurd (cc g)
  appended P (o ∷ ps) p h all zero x g = all 0 x g
  appended P (o ∷ ps) p h all (suc i) x g = appended P ps p h (λ n. all (suc n)) i x g

  -- A new client stands behind the others, with its greeting.
  pub turn_joins :
      (w : Window K) (k : K)
      → IsIdle w
      → w.listening ≡ true
      → IsAnswered qt sent w (joins k) (accept qt k w)
        × ((p : Peer K) × (get_elem? (accept qt k w).peers (length w.peers) ≡ some p)
            × (sent p.socket ≡ sent k ++ frame qt.stream (codes "Server Response: Connected!"))
            × (p.connected ≡ true))
        × (length (accept qt k w).peers ≡ suc (length w.peers))
  unfolding accept slot_new_connection
  turn_joins w k idle l =
      let st : Server K = record {
        socket = k;
        shown = w.shown;
        closed = w.closed;
        hung = w.hung;
      } in
      let p : Peer K = record {
        socket = (reply qt (codes "Server Response: Connected!") st).socket;
        arrived = [];
        connected = true;
      } in
      rw l (
        (
          (idle.0, appended (λ x. x.arrived ≡ []) w.peers p refl idle.1, idle.2),
          λ j x g.
              (x, get_elem?-append w.peers (p ∷ []) j g, sym (append-nil (sent x.socket)), refl),
        ),
        (
          p,
          get_elem?-append_length w.peers p,
          sent-reply qt sent whole (codes "Server Response: Connected!") st,
          refl,
        ),
        length-append w.peers (p ∷ []) ∙ omega arith,
      )
