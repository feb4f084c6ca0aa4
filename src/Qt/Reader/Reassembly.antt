-- ===== src/Qt/Reader/Reassembly.antt =====
-- However the bytes of some messages are cut into pieces on the way, the reader takes the messages
-- whole and in order.
use cpp_network_homework.Prelude.{
  ◌≡◌, refl, sym, ap, subst, ◌∙◌, inl, inr, Bool, true, false, false≢true, List, [], ◌∷◌, ◌++◌,
  append-nil, arith, Bool-cases, length, All, length-append, Bytes, concat,
}
use cpp_network_homework.Qt.Stream.{Text, DataStream, IsQt}
use cpp_network_homework.Qt.Frame.{frames, body_size}
use cpp_network_homework.Qt.Reader.{Reader, ready_read, feed, feed_open, acts}
use cpp_network_homework.Qt.Reader.Rounds.{IsMessage, Awaits, at_size, at_text, IsBlocked, framed}
use cpp_network_homework.Qt.Reader.Drained.{ready_read-Drained}

module _ (q : DataStream) (w : IsQt q) {S : Type 0} (react : Text → Bytes → S → Bytes × S)
    (act : Text → S → S) where
  -- A reader that is blocked with nothing more to come has taken everything.
  Awaits-end :
      (r : Reader S) (ms : List Text)
      → All (IsMessage react act) ms
      → IsBlocked r
      → Awaits q r.next_block_size r.arrived [] ms
      → (ms ≡ []) × (r.arrived ≡ []) × (r.next_block_size ≡ 0)
  Awaits-end r [] h b (at_size z e) = (refl, sym (append-nil r.arrived) ∙ e, z)
  Awaits-end r (m ∷ ms) h (inl (z, l)) (at_size z' e) = absurd (
      omega (
        arith,
        ap length (sym (append-nil r.arrived) ∙ e ∙ framed q w react act m ms h.0.0),
        length-append (q.put_uint16 (body_size m)) (q.put_string m ++ frames q ms),
        w.length-put_uint16 (body_size m),
      ))
  Awaits-end r (m ∷ ms) h (inr (z, l)) (at_size z' e) = absurd (z z')
  Awaits-end r (m ∷ ms) h (inl (z, l)) (at_text z' e) = absurd (omega arith)
  Awaits-end r (m ∷ ms) h (inr (z, l)) (at_text z' e) = absurd (
      omega (
        arith,
        ap length (sym (append-nil r.arrived) ∙ e),
        length-append (q.put_string m) (frames q ms),
        w.length-put_string m h.0.0.0,
      ))

  acts-append : (xs ys : List Text) (s : S) → acts act (xs ++ ys) s ≡ acts act ys (acts act xs s)
  acts-append [] ys s = refl
  acts-append (x ∷ xs) ys s = acts-append xs ys (act x s)

  All-right :
      (xs ys : List Text) → All (IsMessage react act) (xs ++ ys) → All (IsMessage react act) ys
  All-right [] ys h = h
  All-right (x ∷ xs) ys (h, t) = All-right xs ys t

  feed-All :
      (cs : List Bytes) (r : Reader S) (ms : List Text)
      → All (IsMessage react act) ms
      → IsBlocked r
      → Awaits q r.next_block_size r.arrived (concat cs) ms
      → feed q react r cs
        ≡ record { next_block_size = 0; arrived = []; state = acts act ms r.state }
  unfolding feed
  feed-All [] r ms h b a =
      let (none_left, read, z) = Awaits-end r ms h b a in
      rw none_left (λ i. record { next_block_size = z i; arrived = read i; state = r.state })
  feed-All (c ∷ cs) r ms h b a =
      let d = ready_read-Drained q w react act r c (concat cs) ms h a in
      feed-All cs (ready_read q react r c) d.left
        (All-right d.taken d.left (subst (All (IsMessage react act)) d.splits h)) d.blocked d.awaits
      ∙ ap (λ x. record { next_block_size = 0; arrived = []; state = x })
          (ap (acts act d.left) d.state_is
            ∙ sym (acts-append d.taken d.left r.state)
            ∙ ap (λ l. acts act l r.state) (sym d.splits))

  -- Any messages that fit their size fields, written one after another and cut into pieces in any
  -- way, are acted on once each, in order, by the time the last piece has arrived; nothing is left
  -- over. The action on a message reads none of what follows it, and `QDataStream` reads back what
  -- it writes.
  pub feed-frames :
      (ms : List Text) (cs : List Bytes) (s : S)
      → All (IsMessage react act) ms
      → concat cs ≡ frames q ms
      → feed q react (record { next_block_size = 0; arrived = []; state = s }) cs
        ≡ record { next_block_size = 0; arrived = []; state = acts act ms s }
  feed-frames ms cs s h e =
      feed-All cs (record { next_block_size = 0; arrived = []; state = s }) ms h
        (inl (refl, omega arith)) (at_size refl e)

  -- Acting on some messages closes the window with the last one at the earliest.
  abbrev pub StaysOpen : (S → Bool) → List Text → S → Type 0
  StaysOpen closed [] s = Unit
  StaysOpen closed (m ∷ ms) s = (closed s ≡ false) × StaysOpen closed ms (act m s)

  StaysOpen-right :
      (closed : S → Bool) (xs ys : List Text) (s : S)
      → StaysOpen closed (xs ++ ys) s
      → StaysOpen closed ys (acts act xs s)
  StaysOpen-right closed [] ys s h = h
  StaysOpen-right closed (x ∷ xs) ys s (h, t) = StaysOpen-right closed xs ys (act x s) t

  append_empty : (a b : Bytes) → a ++ b ≡ [] → a ≡ []
  append_empty [] b e = refl
  append_empty (x ∷ a) b e = absurd (cc e)

  -- A reader that has closed its window has taken everything.
  closed_done :
      (closed : S → Bool) (r : Reader S) (rest : Bytes) (ms : List Text)
      → Awaits q r.next_block_size r.arrived rest ms
      → StaysOpen closed ms r.state
      → closed r.state ≡ true
      → r ≡ record { next_block_size = 0; arrived = []; state = acts act ms r.state }
  closed_done closed r rest [] (at_size z e) o c = λ i. record {
    next_block_size = z i;
    arrived = append_empty r.arrived rest e i;
    state = r.state;
  }
  closed_done closed r rest (m ∷ ms) a (o, os) c = absurd (false≢true (sym o ∙ c))

  feed_open-All :
      (closed : S → Bool) (cs : List Bytes) (r : Reader S) (ms : List Text)
      → All (IsMessage react act) ms
      → IsBlocked r
      → Awaits q r.next_block_size r.arrived (concat cs) ms
      → StaysOpen closed ms r.state
      → feed_open q react closed r cs
        ≡ record { next_block_size = 0; arrived = []; state = acts act ms r.state }
  unfolding feed_open feed
  feed_open-All closed [] r ms h b a o = feed-All [] r ms h b a
  feed_open-All closed (c ∷ cs) r ms h b a o = elim (Bool-cases (closed r.state)) [
    | inl shut ↦ rw shut (closed_done closed r (concat (c ∷ cs)) ms a o shut)
    | inr open_still ↦
        let d = ready_read-Drained q w react act r c (concat cs) ms h a in
        let stays =
          StaysOpen-right closed d.taken d.left r.state
            (subst (λ l. StaysOpen closed l r.state) d.splits o) in
        rw open_still (
          feed_open-All closed cs (ready_read q react r c) d.left
            (All-right d.taken d.left (subst (All (IsMessage react act)) d.splits h)) d.blocked
            d.awaits (subst (StaysOpen closed d.left) (sym d.state_is) stays)
          ∙ ap (λ x. record { next_block_size = 0; arrived = []; state = x })
              (ap (acts act d.left) d.state_is
                ∙ sym (acts-append d.taken d.left r.state)
                ∙ ap (λ l. acts act l r.state) (sym d.splits)))
  ]

  -- The same up to the close of the window.
  pub feed_open-frames :
      (closed : S → Bool) (ms : List Text) (cs : List Bytes) (s : S)
      → All (IsMessage react act) ms
      → StaysOpen closed ms s
      → concat cs ≡ frames q ms
      → feed_open q react closed (record { next_block_size = 0; arrived = []; state = s }) cs
        ≡ record { next_block_size = 0; arrived = []; state = acts act ms s }
  feed_open-frames closed ms cs s h o e =
      feed_open-All closed cs (record { next_block_size = 0; arrived = []; state = s }) ms h
        (inl (refl, omega arith)) (at_size refl e) o

-- None but the last of some messages is of this kind.
abbrev pub OnlyLast : (Text → Bool) → List Text → Type 0
OnlyLast kind [] = Unit
OnlyLast kind (m ∷ []) = Unit
OnlyLast kind (m ∷ n ∷ ms) = (kind m ≡ false) × OnlyLast kind (n ∷ ms)

-- If only such messages close the window, it stays open up to the last one.
pub OnlyLast-StaysOpen :
    {S : Type 0} (q : DataStream) (w : IsQt q) (react : Text → Bytes → S → Bytes × S)
    (act : Text → S → S) (closed : S → Bool) (kind : Text → Bool) (ms : List Text) (s : S)
    → ((m : Text) (s : S) → kind m ≡ false → closed (act m s) ≡ closed s)
    → OnlyLast kind ms
    → closed s ≡ false
    → StaysOpen q w react act closed ms s
OnlyLast-StaysOpen q w react act closed kind [] s keeps o c = tt
OnlyLast-StaysOpen q w react act closed kind (m ∷ []) s keeps o c = (c, tt)
OnlyLast-StaysOpen q w react act closed kind (m ∷ n ∷ ms) s keeps (h, o) c =
    (c, OnlyLast-StaysOpen q w react act closed kind (n ∷ ms) (act m s) keeps o (keeps m s h ∙ c))
