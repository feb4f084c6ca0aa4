-- ===== src/Qt/Reader/Handover.antt =====
-- What the loop of the reader does with a message whose action may read on.
use cpp_network_homework.Prelude.{
  suc, ◌+◌, ◌-◌, ◌%◌, ◌^◌, ◌≡◌, refl, ap, ◌∙◌, inl, true, false, [], ◌++◌, append_assoc, arith, ltb,
  length, length-append, Bytes,
}
use cpp_network_homework.Qt.Stream.{Text, DataStream, IsQt}
use cpp_network_homework.Qt.Frame.{frame, IsShort, body_size, frame_lem}
use cpp_network_homework.Qt.Reader.{Reader, take_message, after_size, round, drain, ready_read}
use cpp_network_homework.Qt.Reader.Rounds.{take_size_header, round_short}

-- Each round that takes a whole message hands what follows it to the action.
module _ (q : DataStream) (w : IsQt q) {S : Type 0} (react : Text → Bytes → S → Bytes × S) where
  round_message :
      (m : Text) (b : Bytes) (s : S)
      → IsShort m
      → round q react (record { next_block_size = 0; arrived = frame q m ++ b; state = s })
        ≡ (record { next_block_size = 0; arrived = (react m b s).0; state = (react m b s).1 }, true)
  unfolding round after_size take_message
  round_message m b s h =
      let r : Reader S = record { next_block_size = 0; arrived = frame q m ++ b; state = s } in
      let small : body_size m % 2 ^ 16 ≡ body_size m = omega arith in
      let e : frame q m ++ b ≡ q.put_uint16 (body_size m) ++ (q.put_string m ++ b) =
        ap (λ t. t ++ b) (frame_lem q w m h.0 ∙ ap (λ n. q.put_uint16 n ++ q.put_string m) small)
        ∙ append_assoc (q.put_uint16 (body_size m)) (q.put_string m) b in
      let enough : ltb (length (q.put_string m ++ b)) (body_size m) ≡ false =
        ground (arith, length-append (q.put_string m) b, w.length-put_string m h.0) in
      rw
        (
          take_size_header q w react (λ t s. s) m (q.put_string m ++ b) r h refl e,
          enough,
          w.get-put_string m b h.0,
        )
        refl

  -- A message with nothing left behind it ends the loop.
  pub ready_read_message :
      (m : Text) (b : Bytes) (s : S)
      → IsShort m
      → (react m b s).0 ≡ []
      → ready_read q react
          (record { next_block_size = 0; arrived = []; state = s })
          (frame q m ++ b)
        ≡ record { next_block_size = 0; arrived = []; state = (react m b s).1 }
  unfolding ready_read drain
  ready_read_message m b s h e =
      let whole = frame q m ++ b in
      let done : Reader S = record { next_block_size = 0; arrived = []; state = (react m b s).1 } in
      let n : length whole + 2 ≡ suc (suc (length whole)) = omega arith in
      rw (n, round_message m b s h, e) rw
        (round_short q w react (λ t x. x) done (inl (refl, omega arith))) refl

  -- A message whose action reads nothing, and one with nothing left behind it.
  pub ready_read_two :
      (m n : Text) (b : Bytes) (s t : S)
      → IsShort m
      → IsShort n
      → react m (frame q n ++ b) s ≡ (frame q n ++ b, t)
      → (react n b t).0 ≡ []
      → ready_read q react
          (record { next_block_size = 0; arrived = []; state = s })
          (frame q m ++ (frame q n ++ b))
        ≡ record { next_block_size = 0; arrived = []; state = (react n b t).1 }
  unfolding ready_read drain
  ready_read_two m n b s t hm hn first last =
      let whole = frame q m ++ (frame q n ++ b) in
      let done : Reader S = record { next_block_size = 0; arrived = []; state = (react n b t).1 } in
      let size = q.put_uint16 (body_size m % 2 ^ 16) in
      let three : length whole + 2 ≡ suc (suc (suc (length whole - 1))) = omega (
        arith,
        length-append (frame q m) (frame q n ++ b),
        ap length (frame_lem q w m hm.0),
        length-append size (q.put_string m),
        w.length-put_uint16 (body_size m % 2 ^ 16),
      ) in
      rw (three, round_message m (frame q n ++ b) s hm, first, round_message n b t hn, last) rw
        (round_short q w react (λ t x. x) done (inl (refl, omega arith))) refl
