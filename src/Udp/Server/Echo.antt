-- ===== src/Udp/Server/Echo.antt =====
-- What the datagram server sends back, and how its loop ends.
use cpp_network_homework.Prelude.{
  ◌≤◌, ◌≡◌, refl, sym, ap, ap₂, ◌∙◌, true, false, some, List, [], ◌∷◌, ◌++◌, append-nil,
  append_assoc, arith, if◌then◌else◌, length, All, Bytes, codes, equal, equal_iff,
}
use cpp_network_homework.Text.{trim}
use cpp_network_homework.Text.Strip.{strip_left, strip_right}
use cpp_network_homework.Text.Trim.{trim-strip}
use cpp_network_homework.Text.Line.{stripped}
use cpp_network_homework.Udp.Server.{
  Resolver, Received, datagram, failed, Sent, stopped, terminated, waiting, answer, handle, serve,
  nothing,
}

-- `recvfrom` gives at most 999 bytes, the size of the buffer less 1.
abbrev pub FitsBuffer : Bytes → Type 0
FitsBuffer b = length b ≤ 999

abbrev pub IsExit : Bytes → Type 0
IsExit b = equal (stripped b) (codes "exit") ≡ true

module _ {A : Type 0} where
  -- A datagram that fits the buffer and is no command to leave.
  abbrev pub IsPlain : A × Bytes → Type 0
  IsPlain (from, b) = FitsBuffer b × (equal (stripped b) (codes "exit") ≡ false)

  -- The replies to some datagrams: each that is not empty goes back to its sender, stripped.
  abbrev pub echoes : List (A × Bytes) → List (A × Bytes)
  echoes [] = []
  echoes ((from, []) ∷ ds) = echoes ds
  echoes ((from, c ∷ cs) ∷ ds) = (from, stripped (c ∷ cs)) ∷ echoes ds

  abbrev pub arrive : List (A × Bytes) → List (Received A) → List (Received A)
  arrive [] script = script
  arrive ((from, b) ∷ ds) script = datagram from b ∷ arrive ds script

  echoes-cons :
      (from : A) (b : Bytes) (ds : List (A × Bytes))
      → echoes ((from, b) ∷ ds) ≡ echoes ((from, b) ∷ []) ++ echoes ds
  echoes-cons from [] ds = refl
  echoes-cons from (c ∷ cs) ds = refl

  pub echo_exit :
      (from : A) (b : Bytes) → IsExit b → echoes ((from, b) ∷ []) ≡ (from, codes "exit") ∷ []
  echo_exit from [] e = unfold equal strip_left strip_right in cc e
  echo_exit from (c ∷ cs) e =
      ap (λ t. (from, t) ∷ []) ((equal_iff (stripped (c ∷ cs)) (codes "exit")).0 e)

module _ {A I : Type 0} (r : Resolver A I) where
  goes_on :
      (from : A) (b : Bytes) (sent : Sent A)
      → equal (stripped b) (codes "exit") ≡ false
      → (handle r from b (stripped b) sent).1 ≡ true
  unfolding handle
  goes_on from b sent e = ground arith

  stops :
      (from : A) (b : Bytes) (sent : Sent A)
      → IsExit b
      → (handle r from b (stripped b) sent).1 ≡ false
  unfolding handle
  stops from [] sent e = unfold equal strip_left strip_right in cc e
  stops from (c ∷ cs) sent e = ground arith

  handled : A → Bytes → Sent A → Sent A
  handled from b sent = (handle r from b (stripped b) sent).0

  serve_datagram :
      (from : A) (b : Bytes) (script : List (Received A)) (sent : Sent A)
      → FitsBuffer b
      → serve r (datagram from b ∷ script) sent ≡ (
          if (handle r from b (stripped b) sent).1
          then serve r script (handled from b sent)
          else stopped (handled from b sent) script)
  unfolding serve handled
  serve_datagram from b script sent h =
      let e : trim b ≡ some (stripped b) = trim-strip b (omega arith) in rw (e, serve)

  serve-IsPlain :
      (from : A) (b : Bytes) (script : List (Received A)) (sent : Sent A)
      → IsPlain (from, b)
      → serve r (datagram from b ∷ script) sent ≡ serve r script (handled from b sent)
  serve-IsPlain from b script sent (h, e) =
      serve_datagram from b script sent h ∙ rw (goes_on from b sent e)

  after : List (A × Bytes) → Sent A → Sent A
  after [] sent = sent
  after ((from, b) ∷ ds) sent = after ds (handled from b sent)

  serve-arrive :
      (ds : List (A × Bytes)) (script : List (Received A)) (sent : Sent A)
      → All IsPlain ds
      → serve r (arrive ds script) sent ≡ serve r script (after ds sent)
  unfolding after
  serve-arrive [] script sent h = refl
  serve-arrive ((from, b) ∷ ds) script sent (h, t) =
      serve-IsPlain from b (arrive ds script) sent h
      ∙ serve-arrive ds script (handled from b sent) t

  replies-handled :
      (from : A) (b : Bytes) (sent : Sent A)
      → (handled from b sent).replies ≡ sent.replies ++ echoes ((from, b) ∷ [])
  unfolding handled handle answer
  replies-handled from [] sent = sym (append-nil sent.replies)
  replies-handled from (c ∷ cs) sent = ground arith

  replies-after :
      (ds : List (A × Bytes)) (sent : Sent A) → (after ds sent).replies ≡ sent.replies ++ echoes ds
  unfolding after
  replies-after [] sent = sym (append-nil sent.replies)
  replies-after ((from, b) ∷ ds) sent =
      replies-after ds (handled from b sent)
      ∙ ap (λ x. x ++ echoes ds) (replies-handled from b sent)
      ∙ append_assoc sent.replies (echoes ((from, b) ∷ [])) (echoes ds)
      ∙ ap (λ x. sent.replies ++ x) (sym (echoes-cons from b ds))

  -- While datagrams of at most 999 bytes arrive, and none of them is the word `exit` after
  -- stripping, every one that is not empty is answered, in order, and to its sender, with its own
  -- text stripped of white space; then the server waits.
  pub serve-echoes :
      (ds : List (A × Bytes))
      → All IsPlain ds
      → (sent : Sent A) × (serve r (arrive ds []) (nothing r) ≡ waiting sent)
        × (sent.replies ≡ echoes ds)
  serve-echoes ds h = (
    after ds (nothing r),
    serve-arrive ds [] (nothing r) h ∙ unfold serve in refl,
    replies-after ds (nothing r),
  )

  -- Behind datagrams of at most 999 bytes that are not the word `exit` after stripping, one that
  -- is that word is answered like the others, and then the loop ends: what arrives later is not
  -- read.
  pub serve_exit :
      (ds : List (A × Bytes)) (from : A) (b : Bytes) (script : List (Received A))
      → All IsPlain ds
      → FitsBuffer b
      → IsExit b
      → (sent : Sent A) × (serve r (arrive ds (datagram from b ∷ script)) (nothing r)
          ≡ stopped sent script)
        × (sent.replies ≡ echoes ds ++ ((from, codes "exit") ∷ []))
  serve_exit ds from b script h f e = (
    handled from b (after ds (nothing r)),
    serve-arrive ds (datagram from b ∷ script) (nothing r) h
        ∙ serve_datagram from b script (after ds (nothing r)) f
        ∙ rw (stops from b (after ds (nothing r)) e),
    replies-handled from b (after ds (nothing r))
        ∙ ap₂ ◌++◌ (replies-after ds (nothing r)) (echo_exit from b e),
  )

  -- When `recvfrom` fails, behind datagrams of at most 999 bytes that are not the word `exit`
  -- after stripping, the program is terminated by an exception, whatever would come after.
  pub serve_failed :
      (ds : List (A × Bytes)) (script : List (Received A))
      → All IsPlain ds
      → (sent : Sent A) × (serve r (arrive ds (failed ∷ script)) (nothing r) ≡ terminated sent)
        × (sent.replies ≡ echoes ds)
  serve_failed ds script h = (
    after ds (nothing r),
    serve-arrive ds (failed ∷ script) (nothing r) h ∙ unfold serve in refl,
    replies-after ds (nothing r),
  )
