-- ===== src/Qt/Reader/Shared.antt =====
-- A reader that waits for a message of which only the size has arrived.
use cpp_network_homework.Prelude.{
  ℕ, suc, ◌+◌, ◌<◌, ◌≡◌, refl, sym, inr, true, false, [], append-nil, arith, ltb, length, Bytes,
}
use cpp_network_homework.Qt.Stream.{Text, DataStream, IsQt}
use cpp_network_homework.Qt.Frame.{IsShort, body_size}
use cpp_network_homework.Qt.Reader.{Reader, after_size, round, drain, ready_read}
use cpp_network_homework.Qt.Reader.Rounds.{take_size_header, round_short}

module _ {S : Type 0} (q : DataStream) (w : IsQt q) (react : Text → Bytes → S → Bytes × S) where
  round_size :
      (m : Text) (s : S)
      → IsShort m
      → round q react
          (record { next_block_size = 0; arrived = q.put_uint16 (body_size m); state = s })
        ≡ (record { next_block_size = body_size m; arrived = []; state = s }, false)
  unfolding round after_size
  round_size m s h =
      let size = q.put_uint16 (body_size m) in
      let r : Reader S = record { next_block_size = 0; arrived = size; state = s } in
      let short : ltb 0 (body_size m) ≡ true = ground arith in
      rw (take_size_header q w react (λ t x. x) m [] r h refl (sym (append-nil size)), short) refl

  -- The size of a message arrives, and no more.
  pub ready_read_size :
      (m : Text) (s : S)
      → IsShort m
      → ready_read q react
          (record { next_block_size = 0; arrived = []; state = s })
          (q.put_uint16 (body_size m))
        ≡ record { next_block_size = body_size m; arrived = []; state = s }
  unfolding ready_read drain
  ready_read_size m s h =
      let size = q.put_uint16 (body_size m) in
      let n : length size + 2 ≡ suc (length size + 1) = omega arith in rw (n, round_size m s h) refl

  pub ready_read_short :
      (k : ℕ) (bytes : Bytes) (s : S)
      → length bytes < k
      → ready_read q react (record { next_block_size = k; arrived = []; state = s }) bytes
        ≡ record { next_block_size = k; arrived = bytes; state = s }
  unfolding ready_read drain
  ready_read_short k bytes s h =
      let n : length bytes + 2 ≡ suc (suc (length bytes)) = omega arith in
      let r : Reader S = record { next_block_size = k; arrived = bytes; state = s } in
      rw (n, round_short q w react (λ t x. x) r (inr (omega arith, h))) refl
