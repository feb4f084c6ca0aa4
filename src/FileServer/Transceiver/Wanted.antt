-- ===== src/FileServer/Transceiver/Wanted.antt =====
-- `send_file` sends the part of the file that was asked for, padded to whole buffers.
use native.Mathlib.Decide.{dec_le}
use cpp_network_homework.Prelude.{
  ℕ, ◌*◌, min, ◌≡◌, refl, sym, ap, subst, ◌∙◌, inl, inr, true, some, List, arith, ◌==◌, Bool-cases,
  length, take, drop, take_all, drop_all, length-take, length-drop, Bytes,
}
use cpp_network_homework.Send.{Reply, returned}
use cpp_network_homework.FileServer.Transceiver.{Transceiver, start_at, amount, limited, send_file}
use cpp_network_homework.FileServer.Transceiver.Rounds.{joined, ServesAll}
use cpp_network_homework.FileServer.Transceiver.Blocks.{
  buffers, wanted, buffers_for, send_opened_sends,
}

limited_size : (t : Transceiver) (total : ℕ) → (limited t total).size_fict ≡ min t.size_fict total
unfolding limited
limited_size t total = ground arith

limited_fict : (t : Transceiver) (total : ℕ) → (limited t total).fict ≡ t.fict
unfolding limited
limited_fict t total = refl

pub drop-min : (n : ℕ) (bytes : Bytes) → drop (min n (length bytes)) bytes ≡ drop n bytes
drop-min n bytes = elim (dec_le n (length bytes)) [
  | yes h ↦ let e : min n (length bytes) ≡ n = omega arith in rw e
  | no h ↦
      drop_all (min n (length bytes)) bytes (omega arith) ∙ sym (drop_all n bytes (omega arith))
]

pub take-min : (n : ℕ) (bytes : Bytes) → take (min n (length bytes)) bytes ≡ take n bytes
take-min n bytes = elim (dec_le n (length bytes)) [
  | yes h ↦ let e : min n (length bytes) ≡ n = omega arith in rw e
  | no h ↦
      take_all (min n (length bytes)) bytes (omega arith) ∙ sym (take_all n bytes (omega arith))
]

portion-wanted :
    (t : Transceiver) (bytes : Bytes)
    → take
        (amount t.fict (min t.size_fict (length bytes)) (length bytes))
        (drop (start_at t.fict (min t.size_fict (length bytes))) bytes)
      ≡ wanted t bytes
unfolding amount start_at
portion-wanted t bytes = elim (Bool-cases (t.fict == 1)) [
  | inl beans ↦ rw beans (
      take_all (length bytes) (drop (min t.size_fict (length bytes)) bytes)
        (omega (arith, length-drop (min t.size_fict (length bytes)) bytes))
      ∙ drop-min t.size_fict bytes)
  | inr unequal ↦ elim (Bool-cases (t.fict == 2)) [
    | inl size ↦ rw (unequal, size) (take-min t.size_fict bytes)
    | inr all ↦ rw (unequal, all) (take_all (length bytes) bytes (omega arith))
  ]
]

pub send_file-wanted :
    (t : Transceiver) (bytes : Bytes) (ps : List (List Reply)) (more : List Reply)
    → ServesAll 4096 ps
    → length ps ≡ buffers_for t (length bytes)
    → (out : Bytes) × (send_file t (some bytes) (joined ps more)
        ≡ (limited t (length bytes), returned true out more))
      × (take (length (wanted t bytes)) out ≡ wanted t bytes)
      × (length out ≡ 4096 * buffers_for t (length bytes))
unfolding send_file
send_file-wanted t bytes ps more s e =
    let u = limited t (length bytes) in
    let rest = drop (start_at u.fict u.size_fict) bytes in
    let n = amount u.fict u.size_fict (length bytes) in
    let sent =
      send_opened_sends u bytes ps more s
        (e ∙ ap (buffers n) (sym (length-drop (start_at u.fict u.size_fict) bytes))) in
    let part : take n rest ≡ wanted t bytes =
      rw (limited_size t (length bytes)) (unfold limited in portion-wanted t bytes) in
    let size : min n (length rest) ≡ length (wanted t bytes) =
      sym (length-take n rest) ∙ ap length part in
    (
      sent.0,
      ap (λ o. (u, o)) sent.1,
      subst (λ k. take k sent.0 ≡ wanted t bytes) size (sent.2 ∙ part),
      omega (arith, sent.3),
    )
