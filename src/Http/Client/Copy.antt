-- ===== src/Http/Client/Copy.antt =====
-- The loop of the callback, on the block that the client fills.
use cpp_network_homework.Prelude.{
  ℕ, ◌+◌, ◌≤◌, ◌<◌, ◌≡◌, refl, sym, ap, ap₂, ◌∙◌, true, false, none, some, [], ◌∷◌, ◌++◌,
  append-nil, append_assoc, arith, ltb, lt→ltb, length, drop, set, length-append, Bytes,
}
use cpp_network_homework.Http.Client.{Buffer, copy_bytes}

-- A block whose first bytes are those of the response so far, and what it holds behind them.
abbrev pub filled : ℕ → Bytes → Bytes → Buffer
filled n done rest = record { lenght_f = n; body = done ++ rest; p = length done }

pub set-length-append :
    (done rest : Bytes) (r c : ℕ) → set (done ++ (r ∷ rest)) (length done) c ≡ done ++ (c ∷ rest)
set-length-append [] rest r c = refl
set-length-append (d ∷ done) rest r c = ap (◌∷◌ d) (set-length-append done rest r c)

length-snoc : (done : Bytes) (c : ℕ) → length done + 1 ≡ length (done ++ (c ∷ []))
length-snoc done c = omega (arith, length-append done (c ∷ []))

-- One byte more.
filled_step :
    (n : ℕ) (done rest : Bytes) (r c : ℕ)
    → record (filled n done (r ∷ rest)) {
      body = set (done ++ (r ∷ rest)) (length done) c;
      p = length done + 1;
    }
      ≡ filled n (done ++ (c ∷ [])) rest
filled_step n done rest r c =
    ap₂ (λ t k. record { lenght_f = n; body = t; p = k })
      (set-length-append done rest r c ∙ sym (append_assoc done (c ∷ []) rest)) (length-snoc done c)

pub has_room : (done rest : Bytes) (r : ℕ) → ltb (length done) (length (done ++ (r ∷ rest))) ≡ true
has_room done rest r = lt→ltb _ _ (omega (arith, length-append done (r ∷ rest)))

copy_bytes_step :
    (c : ℕ) (cs : Bytes) (n : ℕ) (done rest : Bytes) (r : ℕ)
    → copy_bytes (c ∷ cs) (filled n done (r ∷ rest))
      ≡ copy_bytes cs (filled n (done ++ (c ∷ [])) rest)
unfolding copy_bytes
copy_bytes_step c cs n done rest r =
    rw (has_room done rest r) (ap (copy_bytes cs) (filled_step n done rest r c))

pub copy_bytes-filled :
    (piece : Bytes) (n : ℕ) (done rest : Bytes)
    → length piece ≤ length rest
    → copy_bytes piece (filled n done rest)
      ≡ some (filled n (done ++ piece) (drop (length piece) rest))
unfolding copy_bytes
copy_bytes-filled [] n done rest h = ap (λ t. some (filled n t rest)) (sym (append-nil done))
copy_bytes-filled (c ∷ cs) n done [] h = absurd (omega arith)
copy_bytes-filled (c ∷ cs) n done (r ∷ rest) h =
    copy_bytes_step c cs n done rest r
    ∙ (copy_bytes-filled cs n (done ++ (c ∷ [])) rest (omega arith)
        ∙ ap (λ t. some (filled n t (drop (length cs) rest))) (append_assoc done (c ∷ []) cs))

pub copy_bytes_overflow :
    (piece : Bytes) (n : ℕ) (done rest : Bytes)
    → length rest < length piece
    → copy_bytes piece (filled n done rest) ≡ none
unfolding copy_bytes
copy_bytes_overflow [] n done rest h = absurd (omega arith)
copy_bytes_overflow (c ∷ cs) n done [] h =
    let full : ltb (length done) (length (done ++ [])) ≡ false =
      ground (arith, length-append done []) in
    rw full refl
copy_bytes_overflow (c ∷ cs) n done (r ∷ rest) h =
    copy_bytes_step c cs n done rest r
    ∙ copy_bytes_overflow cs n (done ++ (c ∷ [])) rest (omega arith)
