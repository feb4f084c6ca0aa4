-- ===== src/Qt/Server/Window/Shape.antt =====
-- The clients of the Qt server and their number.
use cpp_network_homework.Prelude.{
  ℕ, ◌≡◌, refl, sym, subst, ◌∙◌, inl, inr, Option, none, some, List, [], ◌∷◌, Bool-cases, length,
  length-set, get_elem?, Bytes,
}
use cpp_network_homework.Qt.Server.{Qt}
use cpp_network_homework.Qt.Server.Window.{
  Peer, Window, arrives, arrive, leave, call_slot, on_event, run,
}
use cpp_network_homework.Qt.Server.Window.Turns.{arrivals, on_event_open, on_event_shut}

module _ {K : Type 0} (qt : Qt K) where
  -- The window listens on, and a turn adds the client that connects in it.
  pub arrive-shape :
      (i : ℕ) (b : Bytes) (w : Window K) (o : Option (Peer K))
      → ((arrive qt i b w o).listening ≡ w.listening)
        × (length (arrive qt i b w o).peers ≡ length w.peers)
  unfolding arrive
  arrive-shape i b w none = (refl, refl)
  arrive-shape i b w (some p) = elim (Bool-cases p.connected) [
    | inl c ↦ rw c (refl, length-set w.peers i _)
    | inr c ↦ rw c (refl, refl)
  ]

  on_event-shape :
      (i : ℕ) (b : Bytes) (w : Window K)
      → ((on_event qt (arrives i b) w).listening ≡ w.listening)
        × (length (on_event qt (arrives i b) w).peers ≡ length w.peers)
  unfolding call_slot
  on_event-shape i b w = elim (Bool-cases w.closed) [
    | inl shut ↦
        subst (λ v. (v.listening ≡ w.listening) × (length v.peers ≡ length w.peers))
          (sym (on_event_shut qt (arrives i b) w shut)) (refl, refl)
    | inr stays ↦
        subst (λ v. (v.listening ≡ w.listening) × (length v.peers ≡ length w.peers))
          (sym (on_event_open qt (arrives i b) w stays)) (arrive-shape i b w (get_elem? w.peers i))
  ]

  pub arrivals-shape :
      (i : ℕ) (cs : List Bytes) (w : Window K)
      → ((run qt (arrivals i cs) w).listening ≡ w.listening)
        × (length (run qt (arrivals i cs) w).peers ≡ length w.peers)
  unfolding run
  arrivals-shape i [] w = (refl, refl)
  arrivals-shape i (c ∷ cs) w =
      let first = on_event-shape i c w in
      let rest = arrivals-shape i cs (on_event qt (arrives i c) w) in
      (rest.0 ∙ first.0, rest.1 ∙ first.1)

  pub leave-shape :
      (i : ℕ) (w : Window K) (o : Option (Peer K))
      → ((leave qt i w o).listening ≡ w.listening)
        × (length (leave qt i w o).peers ≡ length w.peers)
  unfolding leave
  leave-shape i w none = (refl, refl)
  leave-shape i w (some p) = (refl, length-set w.peers i _)
