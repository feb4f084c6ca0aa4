-- ===== src/Udp/Server/Clients.antt =====
-- What each of several clients of the datagram server gets, however their datagrams interleave.
use cpp_network_homework.Prelude.{
  ◌≡◌, refl, sym, ap, ◌∙◌, inl, inr, Bool, List, [], ◌∷◌, ◌++◌, if◌then◌else◌, Bool-cases, All,
  Bytes, codes,
}
use cpp_network_homework.Text.Line.{stripped}
use cpp_network_homework.Udp.Server.{Resolver, Received, datagram, Sent, stopped, serve, nothing}
use cpp_network_homework.Udp.Server.Echo.{
  FitsBuffer, IsExit, IsPlain, echoes, arrive, echo_exit, serve_exit,
}

module _ {A : Type 0} (same : A → A → Bool) where
  -- The datagrams from one client, or the replies to it, in their order.
  pub of_client : A → List (A × Bytes) → List (A × Bytes)
  of_client a [] = []
  of_client a ((b, t) ∷ ds) = let more = of_client a ds in if same a b then (b, t) ∷ more else more

  echoes-append : (ds es : List (A × Bytes)) → echoes (ds ++ es) ≡ echoes ds ++ echoes es
  echoes-append [] es = refl
  echoes-append ((b, []) ∷ ds) es = echoes-append ds es
  echoes-append ((b, c ∷ cs) ∷ ds) es = ap (◌∷◌ (b, stripped (c ∷ cs))) (echoes-append ds es)

  echoes-of_client :
      (a : A) (ds : List (A × Bytes)) → of_client a (echoes ds) ≡ echoes (of_client a ds)
  unfolding of_client
  echoes-of_client a [] = refl
  echoes-of_client a ((b, []) ∷ ds) = elim (Bool-cases (same a b)) [
    | inl e ↦ rw e (echoes-of_client a ds)
    | inr e ↦ rw e (echoes-of_client a ds)
  ]
  echoes-of_client a ((b, c ∷ cs) ∷ ds) = elim (Bool-cases (same a b)) [
    | inl e ↦ rw e (ap (◌∷◌ (b, stripped (c ∷ cs))) (echoes-of_client a ds))
    | inr e ↦ rw e (echoes-of_client a ds)
  ]

  -- Behind datagrams of at most 999 bytes that are not the word `exit` after stripping, from any
  -- number of clients and interleaved in any way, one that is that word is answered and the loop
  -- ends: what arrives later is not read. Each client has then got the replies to its own datagrams
  -- and no other, each that is not empty stripped, in the order in which it sent them.
  pub serve_exit-of_client :
      {I : Type 0} (r : Resolver A I) (ds : List (A × Bytes)) (from : A) (b : Bytes)
      (script : List (Received A))
      → All IsPlain ds
      → FitsBuffer b
      → IsExit b
      → (sent : Sent A) × (serve r (arrive ds (datagram from b ∷ script)) (nothing r)
          ≡ stopped sent script)
        × ((a : A) → of_client a sent.replies ≡ echoes (of_client a (ds ++ ((from, b) ∷ []))))
  serve_exit-of_client r ds from b script plain fits e =
      let (sent, stops, replies) = serve_exit r ds from b script plain fits e in
      (
        sent,
        stops,
        λ a. ap (of_client a) (all_echoes replies) ∙ echoes-of_client a (ds ++ ((from, b) ∷ [])),
      )
    where
      all_echoes :
          {replies : List (A × Bytes)}
          → replies ≡ echoes ds ++ ((from, codes "exit") ∷ [])
          → replies ≡ echoes (ds ++ ((from, b) ∷ []))
      all_echoes h =
          h
          ∙ (ap (λ t. echoes ds ++ t) (sym (echo_exit from b e))
              ∙ sym (echoes-append ds ((from, b) ∷ [])))
