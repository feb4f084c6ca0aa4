-- ===== src/Qt/Reader/Drained.antt =====
-- What the loop of the reader leaves of the messages that are on the way.
use native.Mathlib.Decide.{dec_lt}
use cpp_network_homework.Prelude.{
  ℕ, zero, suc, ◌+◌, ◌<◌, ◌≡◌, refl, ap, ◌∙◌, inl, inr, List, [], ◌∷◌, ◌++◌, append_assoc, arith,
  length, All, length-append, Bytes,
}
use cpp_network_homework.Qt.Stream.{Text, DataStream, IsQt}
use cpp_network_homework.Qt.Frame.{frames, body_size}
use cpp_network_homework.Qt.Reader.{Reader, drain, ready_read, acts}
use cpp_network_homework.Qt.Reader.Rounds.{
  split_arrived, IsMessage, Awaits, at_size, at_text, IsBlocked, framed, round_header, round_text,
  round_short,
}

module _ (q : DataStream) (w : IsQt q) {S : Type 0} (react : Text → Bytes → S → Bytes × S)
    (act : Text → S → S) where
  -- What `drain` leaves of the messages that were awaited.
  pub record Drained (r : Reader S) (fut : Bytes) (ms : List Text) (r' : Reader S) : Type 0 where
    pub taken : List Text
    pub left : List Text
    pub splits : ms ≡ taken ++ left
    pub state_is : r'.state ≡ acts act taken r.state
    pub awaits : Awaits q r'.next_block_size r'.arrived fut left
    pub blocked : IsBlocked r'

  Drained-none :
      (fuel : ℕ) (r : Reader S) (fut : Bytes) (ms : List Text)
      → IsBlocked r
      → Awaits q r.next_block_size r.arrived fut ms
      → Drained r fut ms (drain q react (suc fuel) r)
  unfolding drain
  Drained-none fuel r fut ms b h =
      rw (round_short q w react act r b)
        (record { taken = []; left = ms; splits = refl; state_is = refl; awaits = h; blocked = b })

  -- The messages of `ms`, behind `m`, and behind the size of one.
  Drained-cons :
      (m : Text) (r n r' : Reader S) (fut : Bytes) (ms : List Text)
      → n.state ≡ act m r.state
      → Drained n fut ms r'
      → Drained r fut (m ∷ ms) r'
  Drained-cons m r n r' fut ms e d = record {
    taken = m ∷ d.taken;
    left = d.left;
    splits = ap (◌∷◌ m) d.splits;
    state_is = d.state_is ∙ ap (acts act d.taken) e;
    awaits = d.awaits;
    blocked = d.blocked;
  }

  Drained-same :
      (r n r' : Reader S) (fut : Bytes) (ms : List Text)
      → n.state ≡ r.state
      → Drained n fut ms r'
      → Drained r fut ms r'
  Drained-same r n r' fut ms e d = record {
    taken = d.taken;
    left = d.left;
    splits = d.splits;
    state_is = d.state_is ∙ ap (acts act d.taken) e;
    awaits = d.awaits;
    blocked = d.blocked;
  }

  drain_text :
      (fuel : ℕ) (r : Reader S) (fut : Bytes) (m : Text) (ms : List Text)
      → ((b : Bytes)
          → length b < length r.arrived
          → (s : S) → Awaits q 0 b fut ms
          → let n : Reader S = record { next_block_size = 0; arrived = b; state = s } in
            Drained n fut ms (drain q react fuel n))
      → IsMessage react act m
      → r.next_block_size ≡ body_size m
      → r.arrived ++ fut ≡ q.put_string m ++ frames q ms
      → Drained r fut (m ∷ ms) (drain q react (suc fuel) r)
  unfolding drain
  drain_text fuel r fut m ms later h z e = elim (dec_lt (length r.arrived) (body_size m)) [
    | yes few ↦ Drained-none fuel r fut (m ∷ ms) (inr (omega arith, omega arith)) (at_text z e)
    | no enough ↦
        let (b, arrived, behind) =
          split_arrived r.arrived fut (q.put_string m) (frames q ms) e
            (omega (arith, w.length-put_string m h.0.0)) in
        let n : Reader S = record { next_block_size = 0; arrived = b; state = act m r.state } in
        let smaller : length b < length r.arrived = omega (
          arith,
          ap length arrived,
          length-append (q.put_string m) b,
          w.length-put_string m h.0.0,
        ) in
        rw (round_text q w react act m b r h z arrived) (
          Drained-cons m r n (drain q react fuel n) fut ms refl
            (later b smaller (act m r.state) (at_size refl behind)))
  ]

  drain_size :
      (fuel : ℕ) (r : Reader S) (fut : Bytes) (m : Text) (ms : List Text)
      → ((b : Bytes)
          → length b < length r.arrived
          → (s : S) → Awaits q 0 b fut ms
          → let n : Reader S = record { next_block_size = 0; arrived = b; state = s } in
            Drained n fut ms (drain q react fuel n))
      → IsMessage react act m
      → r.next_block_size ≡ 0
      → r.arrived ++ fut ≡ frames q (m ∷ ms)
      → Drained r fut (m ∷ ms) (drain q react (suc fuel) r)
  unfolding drain
  drain_size fuel r fut m ms later h z e = elim (dec_lt (length r.arrived) 2) [
    | yes few ↦ Drained-none fuel r fut (m ∷ ms) (inl (z, few)) (at_size z e)
    | no enough ↦
        let (b, arrived, behind) =
          split_arrived r.arrived fut (q.put_uint16 (body_size m)) (q.put_string m ++ frames q ms)
            (e ∙ framed q w react act m ms h.0)
            (omega (arith, w.length-put_uint16 (body_size m))) in
        let n : Reader S = record r { next_block_size = body_size m; arrived = b } in
        let smaller : length b < length r.arrived = omega (
          arith,
          ap length arrived,
          length-append (q.put_uint16 (body_size m)) b,
          w.length-put_uint16 (body_size m),
        ) in
        rw (round_header q w react act m b r h.0 z arrived) (
          Drained-same r n (drain q react (suc fuel) n) fut (m ∷ ms) refl
            (drain_text fuel n fut m ms (λ c l s. later c (omega arith) s) h refl behind))
  ]

  drain-Awaits :
      (fuel : ℕ) (r : Reader S) (fut : Bytes) (ms : List Text)
      → length r.arrived < fuel
      → All (IsMessage react act) ms
      → Awaits q r.next_block_size r.arrived fut ms
      → Drained r fut ms (drain q react fuel r)
  drain-Awaits zero r fut ms l h a = absurd (omega arith)
  drain-Awaits (suc fuel) r fut [] l h (at_size z e) =
      Drained-none fuel r fut [] (inl (z, omega (arith, ap length e, length-append r.arrived fut)))
        (at_size z e)
  drain-Awaits (suc fuel) r fut (m ∷ ms) l (h, t) (at_size z e) =
      drain_size fuel r fut m ms
        (λ b s x a.
          drain-Awaits fuel (record { next_block_size = 0; arrived = b; state = x }) fut ms
            (omega arith) t a)
        h z e
  drain-Awaits (suc fuel) r fut (m ∷ ms) l (h, t) (at_text z e) =
      drain_text fuel r fut m ms
        (λ b s x a.
          drain-Awaits fuel (record { next_block_size = 0; arrived = b; state = x }) fut ms
            (omega arith) t a)
        h z e

  pub ready_read-Drained :
      (r : Reader S) (bytes fut : Bytes) (ms : List Text)
      → All (IsMessage react act) ms
      → Awaits q r.next_block_size r.arrived (bytes ++ fut) ms
      → Drained (record r { arrived = r.arrived ++ bytes }) fut ms (ready_read q react r bytes)
  unfolding ready_read
  ready_read-Drained r bytes fut ms h (at_size z e) =
      drain-Awaits (length (r.arrived ++ bytes) + 2) (record r { arrived = r.arrived ++ bytes }) fut
        ms (omega arith) h (at_size z (append_assoc r.arrived bytes fut ∙ e))
  ready_read-Drained r bytes fut (m ∷ ms) h (at_text z e) =
      drain-Awaits (length (r.arrived ++ bytes) + 2) (record r { arrived = r.arrived ++ bytes }) fut
        (m ∷ ms) (omega arith) h (at_text z (append_assoc r.arrived bytes fut ∙ e))
