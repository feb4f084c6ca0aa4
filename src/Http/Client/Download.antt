-- ===== src/Http/Client/Download.antt =====
-- What the client stores of a response.
use cpp_network_homework.Prelude.{
  ◌≤◌, ◌<◌, ◌≡◌, refl, sym, ap, ap₂, ◌∙◌, inl, inr, false, Option, none, some, List, [], ◌∷◌, ◌++◌,
  append-nil, append_assoc, arith, ltb, leb, ◌==◌, if◌then◌else◌, ltb→lt, leb→le, Bool-cases,
  length, drop, length-append, take-length-append, length-drop, take-set, Bytes, concat,
}
use cpp_network_homework.Text.{c_string}
use cpp_network_homework.Http.Client.{
  Buffer, copy_bytes, on_data, on_pieces, finish, finish_buffer, download,
}
use cpp_network_homework.Http.Client.Copy.{
  filled, set-length-append, has_room, copy_bytes-filled, copy_bytes_overflow,
}
use cpp_network_homework.Http.Chunks.{drop_sum}

on_data_lem :
    (piece done rest : Bytes)
    → on_data piece (filled (length done) done rest)
      ≡ copy_bytes piece (filled (length (done ++ piece)) done rest)
unfolding on_data
on_data_lem piece done rest =
    ap (λ n. copy_bytes piece (filled n done rest)) (sym (length-append done piece))

-- The client behind one piece.
abbrev behind_piece : List Bytes → Option Buffer → Option Buffer
behind_piece pieces none = none
behind_piece pieces (some d) = on_pieces pieces d

on_pieces-filled :
    (pieces : List Bytes) (done rest : Bytes)
    → length (concat pieces) ≤ length rest
    → on_pieces pieces (filled (length done) done rest)
      ≡ some (
          filled
            (length (done ++ concat pieces))
            (done ++ concat pieces)
            (drop (length (concat pieces)) rest))
unfolding on_pieces
on_pieces-filled [] done rest h = ap (λ t. some (filled (length t) t rest)) (sym (append-nil done))
on_pieces-filled (piece ∷ pieces) done rest h =
    let sum = length-append piece (concat pieces) in
    let room : length (concat pieces) ≤ length (drop (length piece) rest) =
      omega (arith, sum, length-drop (length piece) rest) in
    let copied =
      on_data_lem piece done rest
      ∙ copy_bytes-filled piece (length (done ++ piece)) done rest (omega (arith, sum)) in
    ap (behind_piece pieces) copied
    ∙ (on_pieces-filled pieces (done ++ piece) (drop (length piece) rest) room
        ∙ ap₂ (λ t k. some (filled (length t) t k)) (append_assoc done piece (concat pieces))
            (sym (drop_sum (length piece) (length (concat pieces)) _ rest sum)))

on_pieces_overflow :
    (pieces : List Bytes) (done rest : Bytes)
    → length rest < length (concat pieces)
    → on_pieces pieces (filled (length done) done rest) ≡ none
unfolding on_pieces
on_pieces_overflow [] done rest h = absurd (omega arith)
on_pieces_overflow (piece ∷ pieces) done rest h =
    let n = length (done ++ piece) in
    let sum = length-append piece (concat pieces) in
    elim (Bool-cases (leb (length piece) (length rest))) [
      | inl fits ↦
          let more : length (drop (length piece) rest) < length (concat pieces) =
            omega (arith, sum, length-drop (length piece) rest, leb→le _ _ fits) in
          let copied = copy_bytes-filled piece n done rest (leb→le _ _ fits) in
          ap (behind_piece pieces) (on_data_lem piece done rest ∙ copied)
          ∙ on_pieces_overflow pieces (done ++ piece) (drop (length piece) rest) more
      | inr over ↦
          ap (behind_piece pieces)
            (on_data_lem piece done rest ∙ copy_bytes_overflow piece n done rest (ground arith))
    ]

c_string-nul : (a b : Bytes) → c_string (a ++ (0 ∷ b)) ≡ c_string a
unfolding c_string
c_string-nul [] b = refl
c_string-nul (c ∷ a) b = ap (λ t. if c == 0 then [] else c ∷ t) (c_string-nul a b)

finish-filled :
    (done rest : Bytes)
    → 0 < length rest
    → finish (filled (length done) done rest) ≡ some (done, c_string done)
unfolding finish
finish-filled done [] h = absurd (omega arith)
finish-filled done (r ∷ rest) h = rw (has_room done rest r) (
    ap₂ (λ a b. some (a, b))
      (take-set (length done) (length done) (done ++ (r ∷ rest)) 0 (omega arith)
        ∙ take-length-append done (r ∷ rest))
      (ap c_string (set-length-append done rest r 0) ∙ c_string-nul done rest))

finish_full : (done rest : Bytes) → length rest ≡ 0 → finish (filled (length done) done rest) ≡ none
unfolding finish
finish_full done rest h =
    let full : ltb (length done) (length (done ++ rest)) ≡ false =
      ground (arith, length-append done rest) in
    rw full refl

-- The client stores and prints a response of less than 10000 bytes whole, the print up to its
-- first NUL, in whatever pieces it comes; for a longer one it writes behind its block. `new` gives
-- 10000 bytes.
pub download_lem :
    (fresh : Bytes) (pieces : List Bytes)
    → length fresh ≡ 10000
    → let text = concat pieces in
      download fresh pieces ≡ (if ltb (length text) 10000 then some (text, c_string text) else none)
unfolding download finish_buffer
download_lem fresh pieces h =
    let text = concat pieces in
    let left = length-drop (length text) fresh in
    elim (Bool-cases (ltb (length text) 10000)) [
      | inl small ↦
          let less = ltb→lt (length text) 10000 small in
          rw small (
            ap finish_buffer (on_pieces-filled pieces [] fresh (omega arith))
            ∙ finish-filled text (drop (length text) fresh) (omega arith))
      | inr large ↦ elim (Bool-cases (leb (length text) (length fresh))) [
        | inl fits ↦
            let less = leb→le (length text) (length fresh) fits in
            rw large (
              ap finish_buffer (on_pieces-filled pieces [] fresh less)
              ∙ finish_full text (drop (length text) fresh) (ground arith))
        | inr over ↦ rw large (ap finish_buffer (on_pieces_overflow pieces [] fresh (ground arith)))
      ]
    ]
