-- ===== src/Qt/Server/Window/Idle.antt =====
-- What a turn changes in the window of the Qt server.
use cpp_network_homework.Prelude.{
  ℕ, ◌≡◌, refl, sym, ap, subst, ◌∙◌, inl, inr, Bool, false, some, [], ◌++◌, append-nil, arith, ◌==◌,
  Bool-cases, set, get_elem?, get_elem?-set_self, get_elem?-set_other, Bytes,
}
use cpp_network_homework.Qt.Server.{Qt}
use cpp_network_homework.Qt.Server.Replies.{replies_to}
use cpp_network_homework.Qt.Server.Window.{Peer, Window}
use cpp_network_homework.Qt.Server.Window.Turns.{Turn, said, still, IsIdle}

module _ {K : Type 0} (qt : Qt K) (sent : K → Bytes) where
  -- Behind a turn no message is under way, and each client has got the answers to what it said.
  abbrev pub IsAnswered : Window K → Turn K → Window K → Type 0
  IsAnswered w t v =
      IsIdle v
      × ((j : ℕ) (q : Peer K)
          → get_elem? w.peers j ≡ some q
          → (q' : Peer K) × (get_elem? v.peers j ≡ some q')
            × (sent q'.socket ≡ sent q.socket ++ replies_to qt (said q.connected j t))
            × (q'.connected ≡ still q.connected j t))

  -- A client's new state stands where its old one was, and the other clients are as before.
  pub set-IsIdle :
      (w : Window K) (i : ℕ) (p p' : Peer K)
      → IsIdle w
      → get_elem? w.peers i ≡ some p
      → p'.arrived ≡ []
      → IsIdle (record w { next_block_size = 0; peers = set w.peers i p' })
  set-IsIdle w i p p' (z, empty, o) h a = (
    refl,
    λ j q g. elim (Bool-cases (i == j)) [
      | inl e ↦
          let same : i ≡ j = ground arith in
          let here =
            subst (λ n. get_elem? (set w.peers i p') n ≡ some p') same
              (get_elem?-set_self w.peers i p' h) in
          let new : q ≡ p' = cc (sym g ∙ here) in ap (λ x. x.arrived) new ∙ a
      | inr e ↦ empty j q (sym (get_elem?-set_other w.peers j i p' e) ∙ g)
    ],
    o,
  )

  pub set-peers :
      (w : Window K) (i : ℕ) (p p' : Peer K) (t : Turn K)
      → get_elem? w.peers i ≡ some p
      → sent p'.socket ≡ sent p.socket ++ replies_to qt (said p.connected i t)
      → p'.connected ≡ still p.connected i t
      → ((j : ℕ) (c : Bool) → (i == j) ≡ false → (said c j t ≡ []) × (still c j t ≡ c))
      → (j : ℕ) (q : Peer K) → get_elem? w.peers j ≡ some q
      → (q' : Peer K) × (get_elem? (set w.peers i p') j ≡ some q')
        × (sent q'.socket ≡ sent q.socket ++ replies_to qt (said q.connected j t))
        × (q'.connected ≡ still q.connected j t)
  set-peers w i p p' t h sends stays others j q g = elim (Bool-cases (i == j)) [
    | inl e ↦
        let same : i ≡ j = ground arith in
        let is_p : p ≡ q = cc (sym h ∙ (ap (get_elem? w.peers) same ∙ g)) in
        subst
          (λ (x : ℕ).
            (q' : Peer K) × (get_elem? (set w.peers i p') x ≡ some q')
            × (sent q'.socket ≡ sent q.socket ++ replies_to qt (said q.connected x t))
            × (q'.connected ≡ still q.connected x t))
          same
          (subst
            (λ (x : Peer K).
              (q' : Peer K) × (get_elem? (set w.peers i p') i ≡ some q')
              × (sent q'.socket ≡ sent x.socket ++ replies_to qt (said x.connected i t))
              × (q'.connected ≡ still x.connected i t))
            is_p (p', get_elem?-set_self w.peers i p' h, sends, stays))
    | inr e ↦
        let (silent, kept) = others j q.connected e in
        (
          q,
          get_elem?-set_other w.peers j i p' e ∙ g,
          sym (append-nil (sent q.socket))
              ∙ ap (λ l. sent q.socket ++ replies_to qt l) (sym silent),
          sym kept,
        )
  ]
