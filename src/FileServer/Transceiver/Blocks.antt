-- ===== src/FileServer/Transceiver/Blocks.antt =====
-- What `send_file` puts on the wire: the part of the file that was asked for, in whole buffers.
use native.Mathlib.Decide.{dec_le}
use cpp_network_homework.Prelude.{
  ℕ, zero, suc, ◌+◌, ◌-◌, ◌*◌, ◌/◌, ◌≤◌, ◌<◌, min, ◌≡◌, refl, sym, ap, ◌∙◌, inl, inr, true, false,
  ◌&&◌, List, [], ◌∷◌, ◌++◌, append_assoc, arith, ltb, leb, ◌==◌, if◌then◌else◌, ltb→lt, Bool-cases,
  length, take, drop, length-append, take_all, length-drop, length-replicate, Bytes,
}
use cpp_network_homework.Send.{Reply, returned, need_to_repeat}
use cpp_network_homework.Send.Deliver.{Serves}
use cpp_network_homework.FileServer.Transceiver.{
  Transceiver, Input, read, zeros, start_at, amount, send_opened, limited,
}
use cpp_network_homework.FileServer.Transceiver.Rounds.{
  joined, ServesAll, rounds, length-read, take-read, file_loop_ends, file_loop_round, content_full,
  Sends, Sends-none, nil_of_length,
}

module _ (size : ℕ) where
  rounds_zero : (fuel count left : ℕ) → count ≡ 0 → rounds size fuel count left ≡ 0
  unfolding rounds
  rounds_zero zero count left e = refl
  rounds_zero (suc fuel) count left e = ground arith

  -- What is left of the file after a whole read.
  rounds_later :
      (fuel count left left' : ℕ) {k : ℕ}
      → k ≡ rounds size fuel (count - size) (left - size)
      → left' ≡ left - min count size
      → k ≡ rounds size fuel (count - size) left'
  rounds_later fuel count left left' e l = elim (dec_le count size) [
    | yes small ↦
        e
        ∙ rounds_zero fuel (count - size) (left - size) (omega arith)
        ∙ sym (rounds_zero fuel (count - size) left' (omega arith))
    | no big ↦
        let l' : left - size ≡ left' = omega arith in e ∙ ap (rounds size fuel (count - size)) l'
  ]

module _ (size : ℕ) (positive : 0 < size) where
  Sends-short :
      (fuel : ℕ) (input : Input) (count : ℕ) (buffer wire : Bytes) (p more : List Reply)
      → input.good ≡ true
      → length buffer ≡ size
      → Serves need_to_repeat size p
      → length input.rest < min count size
      → Sends size (suc fuel) input count buffer wire (p ∷ []) more
  Sends-short fuel input count buffer wire p more g l s short =
      let n = min count size in
      let r = read n input buffer in
      let stops : (r.0.good && ltb 0 (count - size)) ≡ false = unfold read in ground arith in
      record {
        out = r.1;
        returns =
            file_loop_round size fuel input count buffer wire p more g (omega arith) l s
            ∙ file_loop_ends size fuel r.0 (count - size) r.1 (wire ++ r.1) more stops;
        content =
            let m : min count (length input.rest) ≡ length input.rest = omega arith in
            rw m (
              take-read n (length input.rest) input buffer (omega arith) (omega arith)
              ∙ take_all (length input.rest) input.rest (omega arith)
              ∙ sym (take_all count input.rest (omega arith)));
        blocks = omega (arith, length-read n input buffer (omega arith));
      }

  Sends-full :
      (fuel : ℕ) (input : Input) (count : ℕ) (buffer wire : Bytes) (p : List Reply)
      (ps : List (List Reply)) (more : List Reply)
      → input.good ≡ true
      → 0 < count
      → length buffer ≡ size
      → Serves need_to_repeat size p
      → min count size ≤ length input.rest
      → (let r = read (min count size) input buffer in
          Sends size fuel r.0 (count - size) r.1 (wire ++ r.1) ps more)
      → Sends size (suc fuel) input count buffer wire (p ∷ ps) more
  Sends-full fuel input count buffer wire p ps more g h l s full later =
      let n = min count size in
      let r = read n input buffer in
      let lr : length r.1 ≡ size = length-read n input buffer (omega arith) ∙ l in
      record {
        out = r.1 ++ later.out;
        returns =
            file_loop_round size fuel input count buffer wire p (joined ps more) g h l s
            ∙ later.returns
            ∙ ap (λ w. returned true w more) (append_assoc wire r.1 later.out);
        content =
            content_full size count n input.rest r.1 later.out lr refl full
              (take-read n n input buffer (omega arith) full) (unfold read in later.content);
        blocks = grind (arith, length-append r.1 later.out, lr, later.blocks);
      }

  file_loop-Sends :
      (fuel : ℕ) (input : Input) (count : ℕ) (buffer wire : Bytes) (ps : List (List Reply))
      (more : List Reply)
      → count ≤ fuel
      → input.good ≡ true
      → length buffer ≡ size
      → ServesAll size ps
      → length ps ≡ rounds size fuel count (length input.rest)
      → Sends size fuel input count buffer wire ps more
  unfolding rounds
  file_loop-Sends zero input count buffer wire ps more f g l s e =
      Sends-none size zero input count buffer wire ps more (omega arith) e
  file_loop-Sends (suc fuel) input count buffer wire [] more f g l s e =
      Sends-none size (suc fuel) input count buffer wire [] more (ground arith) refl
  file_loop-Sends (suc fuel) input count buffer wire (p ∷ ps) more f g l s e =
      elim (Bool-cases (ltb (length input.rest) (min count size))) [
        | inl short ↦
            let last : length ps ≡ 0 = ground arith in
            rw (nil_of_length ps last)
              (Sends-short fuel input count buffer wire p more g l s.0 (ltb→lt _ _ short))
        | inr full ↦
            let n = min count size in
            let r = read n input buffer in
            let left : length r.0.rest ≡ length input.rest - n =
              unfold read in length-drop n input.rest in
            Sends-full fuel input count buffer wire p ps more g (ground arith) l s.0 (ground arith)
              (file_loop-Sends fuel r.0 (count - size) r.1 (wire ++ r.1) ps more (omega arith)
                (unfold read in ground arith) (length-read n input buffer (omega arith) ∙ l) s.1
                (rounds_later size fuel count (length input.rest) (length r.0.rest) (ground arith)
                  left))
      ]

-- The buffers that `send_file` sends for `count` bytes to send with `left` bytes in the file: as many
-- as hold `count` bytes, or all that the file fills and one more, where `count` goes beyond its end.
abbrev pub buffers : ℕ → ℕ → ℕ
buffers count left = if leb count left then (count + 4095) / 4096 else left / 4096 + 1

rounds-buffers :
    (fuel count left : ℕ) → count ≤ fuel → rounds 4096 fuel count left ≡ buffers count left
unfolding rounds
rounds-buffers zero count left h = ground arith
rounds-buffers (suc fuel) count left h =
    ground (arith, rounds-buffers fuel (count - 4096) (left - 4096))

-- The part of a file that a request asks for: all but the first bytes (`beans`), the first bytes
-- (`size`), or all of it.
abbrev pub wanted : Transceiver → Bytes → Bytes
wanted t bytes =
    if t.fict == 1
    then drop t.size_fict bytes
    else if t.fict == 2
    then take t.size_fict bytes
    else bytes

-- The number of buffers that it is sent in.
abbrev pub buffers_for : Transceiver → ℕ → ℕ
buffers_for t total =
    let u = limited t total in
    buffers (amount u.fict u.size_fict total) (total - start_at u.fict u.size_fict)

length-zeros : (n : ℕ) → length (zeros n) ≡ n
unfolding zeros
length-zeros n = length-replicate n 0

pub send_opened_sends :
    (t : Transceiver) (bytes : Bytes) (ps : List (List Reply)) (more : List Reply)
    → ServesAll 4096 ps
    → length ps
      ≡ buffers
          (amount t.fict t.size_fict (length bytes))
          (length (drop (start_at t.fict t.size_fict) bytes))
    → (out : Bytes) × (send_opened t bytes (joined ps more) ≡ returned true out more)
      × (take
            (min
              (amount t.fict t.size_fict (length bytes))
              (length (drop (start_at t.fict t.size_fict) bytes)))
            out
          ≡ take
              (amount t.fict t.size_fict (length bytes))
              (drop (start_at t.fict t.size_fict) bytes))
      × (length out ≡ 4096 * length ps)
unfolding send_opened
send_opened_sends t bytes ps more s e =
    let count = amount t.fict t.size_fict (length bytes) in
    let input : Input = record { rest = drop (start_at t.fict t.size_fict) bytes; good = true } in
    let l =
      file_loop-Sends 4096 (omega arith) count input count (zeros 4096) [] ps more (omega arith)
        refl (length-zeros 4096) s
        (e ∙ sym (rounds-buffers count count (length input.rest) (omega arith))) in
    (l.out, l.returns, l.content, l.blocks)
