-- ===== src/Udp/Server/Reordered.antt =====
-- The replies of the datagram server when the network reorders the datagrams.
use mathlib.Core.List.Permᴰ as Perm
use mathlib.Core.List.{Permᴰ}
use mathlib.Core.Quot
use mathlib.Core.Quot.{Quot, Quot-set}
use cpp_network_homework.Prelude.{◌≡◌, refl, ap, subst, ◌∙◌, List, [], ◌∷◌, All, Bytes}
use cpp_network_homework.Udp.Server.{Resolver, Sent, waiting, serve, nothing}
use cpp_network_homework.Udp.Server.Echo.{IsPlain, echoes, arrive, serve-echoes}

-- Datagrams up to their order, each as often as it comes.
abbrev pub Bag : Type 0 → Type 0
Bag A = Quot (Permᴰ {A = A × Bytes})

module _ {A : Type 0} where
  echoes_under :
      (d : A × Bytes) (ds es : List (A × Bytes))
      → Permᴰ (echoes ds) (echoes es)
      → Permᴰ (echoes (d ∷ ds)) (echoes (d ∷ es))
  echoes_under (a, []) ds es p = p
  echoes_under (a, c ∷ cs) ds es p = Perm.cons refl p

  echoes_swapped :
      (d e : A × Bytes) (ds : List (A × Bytes)) → Permᴰ (echoes (d ∷ e ∷ ds)) (echoes (e ∷ d ∷ ds))
  echoes_swapped (a, []) (b, []) ds = Perm.refl (echoes ds)
  echoes_swapped (a, []) (b, c ∷ cs) ds = Perm.refl _
  echoes_swapped (a, c ∷ cs) (b, []) ds = Perm.refl _
  echoes_swapped (a, c ∷ cs) (b, d ∷ ds) es = Perm.swap refl refl

  echoes-Permᴰ : {ds es : List (A × Bytes)} → Permᴰ ds es → Permᴰ (echoes ds) (echoes es)
  echoes-Permᴰ Perm.nil = Perm.nil
  echoes-Permᴰ (Perm.cons {a} {b} {l₁} {l₂} h p) =
      subst (λ x. Permᴰ (echoes (a ∷ l₁)) (echoes (x ∷ l₂))) h
        (echoes_under a l₁ l₂ (echoes-Permᴰ p))
  echoes-Permᴰ (Perm.swap {a} {b} {a'} {b'} {l} h k) =
      subst (λ x. Permᴰ (echoes (a ∷ b ∷ l)) (echoes (a' ∷ x ∷ l))) h
        (subst (λ x. Permᴰ (echoes (a ∷ b ∷ l)) (echoes (x ∷ a ∷ l))) k (echoes_swapped a b l))
  echoes-Permᴰ (Perm.trans p q) = Perm.trans (echoes-Permᴰ p) (echoes-Permᴰ q)

  -- What is sent back for datagrams, in any order.
  pub echo_all : Bag A → Bag A
  echo_all = Quot.lift Quot-set (λ ds. Quot.mk (echoes ds)) (λ ds es p. Quot.sound (echoes-Permᴰ p))

-- The server answers a bag of datagrams: in whatever order the network brings them, if each has at
-- most 999 bytes and none is the word `exit` after stripping, it waits behind them, and its replies
-- are, up to their order, those to the bag.
pub serve-echo_all :
    {A I : Type 0} (r : Resolver A I) (bag : Bag A) (ds : List (A × Bytes))
    → Quot.mk ds ≡ bag
    → All IsPlain ds
    → (sent : Sent A) × (serve r (arrive ds []) (nothing r) ≡ waiting sent)
      × (Quot.mk sent.replies ≡ echo_all bag)
unfolding echo_all
serve-echo_all r bag ds is_bag plain =
    let (sent, waits, replies) = serve-echoes r ds plain in
    (sent, waits, ap Quot.mk replies ∙ ap echo_all is_bag)
