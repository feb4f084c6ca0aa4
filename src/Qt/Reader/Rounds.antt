-- ===== src/Qt/Reader/Rounds.antt =====
-- The rounds of the reader on what `frame` writes.
use cpp_network_homework.Prelude.{
  ℕ, ◌+◌, ◌%◌, ◌^◌, ◌≤◌, ◌<◌, ◌≡◌, refl, sym, ap, ap₂, ◌∙◌, ◌≢◌, ◌⊎◌, inl, inr, true, false, some,
  List, [], ◌∷◌, ◌++◌, append_assoc, arith, ltb, ◌==◌, ==_iff, length, length-append, Bytes,
}
use cpp_network_homework.Qt.Stream.{Text, DataStream, IsQt}
use cpp_network_homework.Qt.Frame.{frames, IsShort, body_size, frame_lem}
use cpp_network_homework.Qt.Reader.{Reader, take_message, take_size, after_size, round}

-- A prefix that has arrived whole.
pub split_arrived :
    (buf fut a b : Bytes)
    → buf ++ fut ≡ a ++ b
    → length a ≤ length buf
    → (rest : Bytes) × (buf ≡ a ++ rest) × (rest ++ fut ≡ b)
split_arrived buf fut [] b e h = (buf, refl, e)
split_arrived [] fut (x ∷ a) b e h = absurd (omega arith)
split_arrived (y ∷ buf) fut (x ∷ a) b e h =
    let ih = split_arrived buf fut a b (cc e) (omega arith) in
    let same : y ≡ x = cc e in (ih.0, ap₂ ◌∷◌ same ih.1, ih.2)

-- Acting on the message reads nothing of what follows it.
abbrev pub IsPassive :
    {S : Type 0} → (Text → Bytes → S → Bytes × S) → (Text → S → S) → Text → Type 0
IsPassive {S} react act m = (b : Bytes) (s : S) → react m b s ≡ (b, act m s)

abbrev pub IsMessage :
    {S : Type 0} → (Text → Bytes → S → Bytes × S) → (Text → S → S) → Text → Type 0
IsMessage react act m = IsShort m × IsPassive react act m

-- The reader stands before the messages `ms`, or behind the size of the first, and `fut` are the
-- bytes that have not arrived.
pub data Awaits (q : DataStream) (next : ℕ) (buf fut : Bytes) : List Text → Type 0 where
  at_size : {ms : List Text} → next ≡ 0 → buf ++ fut ≡ frames q ms → Awaits q next buf fut ms
  at_text :
      {m : Text} {ms : List Text}
      → next ≡ body_size m
      → buf ++ fut ≡ q.put_string m ++ frames q ms
      → Awaits q next buf fut (m ∷ ms)

-- Where the reader stops: what has arrived holds no size, or not the whole text.
abbrev pub IsBlocked : {S : Type 0} → Reader S → Type 0
IsBlocked r =
    (r.next_block_size ≡ 0) × (length r.arrived < 2)
    ⊎ (r.next_block_size ≢ 0) × (length r.arrived < r.next_block_size)

module _ (q : DataStream) (w : IsQt q) {S : Type 0} (react : Text → Bytes → S → Bytes × S)
    (act : Text → S → S) where
  pub framed :
      (m : Text) (ms : List Text)
      → IsShort m
      → frames q (m ∷ ms) ≡ q.put_uint16 (body_size m) ++ (q.put_string m ++ frames q ms)
  framed m ms h =
      let small : body_size m % 2 ^ 16 ≡ body_size m = omega arith in
      ap (λ t. t ++ frames q ms)
        (frame_lem q w m h.0 ∙ ap (λ n. q.put_uint16 n ++ q.put_string m) small)
      ∙ append_assoc (q.put_uint16 (body_size m)) (q.put_string m) (frames q ms)

  pub take_size_header :
      (m : Text) (b : Bytes) (r : Reader S)
      → IsShort m
      → r.next_block_size ≡ 0
      → r.arrived ≡ q.put_uint16 (body_size m) ++ b
      → take_size q react r
        ≡ some (record { next_block_size = body_size m; arrived = b; state = r.state })
  unfolding take_size
  take_size_header m b r h z e =
      let g : q.get_uint16 r.arrived ≡ (body_size m, b) =
        ap q.get_uint16 e ∙ w.get-put_uint16 (body_size m) b h.1 in
      let two : length r.arrived ≡ 2 + length b =
        ap length e
        ∙ length-append (q.put_uint16 (body_size m)) b
        ∙ omega (arith, w.length-put_uint16 (body_size m)) in
      let t : (r.next_block_size == 0) ≡ true = (==_iff _ _).1 z in
      let l : ltb (length r.arrived) 2 ≡ false = ground arith in rw (t, l, g) refl

  take_size_named : (r : Reader S) → r.next_block_size ≢ 0 → take_size q react r ≡ some r
  unfolding take_size
  take_size_named r h = let t : (r.next_block_size == 0) ≡ false = ground arith in rw t

  pub round_header :
      (m : Text) (b : Bytes) (r : Reader S)
      → IsShort m
      → r.next_block_size ≡ 0
      → r.arrived ≡ q.put_uint16 (body_size m) ++ b
      → round q react r ≡ round q react (record r { next_block_size = body_size m; arrived = b })
  unfolding round after_size
  round_header m b r h z e =
      let s : Reader S = record { next_block_size = body_size m; arrived = b; state = r.state } in
      ap (after_size q react r) (take_size_header m b r h z e)
      ∙ sym (ap (after_size q react s) (take_size_named s (omega arith)))

  take_message_text :
      (m : Text) (b : Bytes) (r : Reader S)
      → IsMessage react act m
      → r.arrived ≡ q.put_string m ++ b
      → take_message q react r ≡ record { next_block_size = 0; arrived = b; state = act m r.state }
  unfolding take_message
  take_message_text m b r h e =
      let g : q.get_string r.arrived ≡ (m, b) = ap q.get_string e ∙ w.get-put_string m b h.0.0 in
      rw (g, h.1 b r.state) refl

  pub round_text :
      (m : Text) (b : Bytes) (r : Reader S)
      → IsMessage react act m
      → r.next_block_size ≡ body_size m
      → r.arrived ≡ q.put_string m ++ b
      → round q react r ≡ (record { next_block_size = 0; arrived = b; state = act m r.state }, true)
  unfolding round after_size
  round_text m b r h z e =
      let enough : ltb (length r.arrived) r.next_block_size ≡ false =
        let l = ap length e ∙ length-append (q.put_string m) b in
        ground (arith, w.length-put_string m h.0.0) in
      ap (after_size q react r) (take_size_named r (omega arith))
      ∙ rw (enough, take_message_text m b r h e) refl

  pub round_short :
      (r : Reader S)
      → (r.next_block_size ≡ 0) × (length r.arrived < 2)
        ⊎ (r.next_block_size ≢ 0) × (length r.arrived < r.next_block_size)
      → round q react r ≡ (r, false)
  unfolding round take_size after_size
  round_short r (inl (z, h)) = ground arith
  round_short r (inr (z, h)) = ground arith
