-- ===== src/Text/Decimal.antt =====
-- The digits that `<<` prints for a number.
use cpp_network_homework.Prelude.{
  ℕ, zero, suc, ◌+◌, ◌-◌, ◌*◌, ◌/◌, ◌%◌, ◌<◌, ◌≡◌, refl, ◌∙◌, inl, inr, true, [], ◌∷◌, ◌++◌, arith,
  ltb, if◌then◌else◌, ltb→lt, Bool-cases, All, Bytes,
}
use cpp_network_homework.Text.Number.{is_digit, digits_value}

-- With a bound on the digits; a number has no more digits than it has units, or one.
decimal_on : ℕ → ℕ → Bytes
decimal_on zero n = []
decimal_on (suc fuel) n =
    let front = decimal_on fuel (n / 10) in
    if ltb n 10 then (b'0' + n) ∷ [] else front ++ ((b'0' + n % 10) ∷ [])

pub decimal : ℕ → Bytes
decimal n = decimal_on (n + 1) n

abbrev pub IsDigits : Bytes → Type 0
IsDigits cs = All (λ c. is_digit c ≡ true) cs

IsDigits-append : (cs : Bytes) (d : ℕ) → IsDigits cs → is_digit d ≡ true → IsDigits (cs ++ (d ∷ []))
IsDigits-append [] d h e = (e, tt)
IsDigits-append (c ∷ cs) d (h, hs) e = (h, IsDigits-append cs d hs e)

digits_value-append :
    (acc : ℕ) (cs : Bytes) (d : ℕ)
    → IsDigits cs
    → is_digit d ≡ true
    → digits_value acc (cs ++ (d ∷ [])) ≡ digits_value acc cs * 10 + (d - b'0')
unfolding digits_value
digits_value-append acc [] d h e = rw e refl
digits_value-append acc (c ∷ cs) d (h, hs) e =
    rw h (digits_value-append (acc * 10 + (c - b'0')) cs d hs e)

digit-is_digit : (n : ℕ) → n < 10 → is_digit (b'0' + n) ≡ true
unfolding is_digit
digit-is_digit n h = ground arith

decimal_on-value :
    (fuel n : ℕ)
    → n < fuel
    → IsDigits (decimal_on fuel n) × (digits_value 0 (decimal_on fuel n) ≡ n)
unfolding decimal_on digits_value
decimal_on-value zero n h = absurd (omega arith)
decimal_on-value (suc fuel) n h = elim (Bool-cases (ltb n 10)) [
  | inl small ↦
      let e = digit-is_digit n (ltb→lt _ _ small) in
      rw small (unfold digits_value in (e, tt), rw e (omega arith))
  | inr large ↦
      let less : n / 10 < fuel = ground arith in
      let (front, v) = decimal_on-value fuel (n / 10) less in
      let e = digit-is_digit (n % 10) (omega arith) in
      rw large (IsDigits-append _ _ front e, digits_value-append 0 _ _ front e ∙ rw v (omega arith))
]

-- Only digits are printed, and they have the value of the number.
pub decimal-value : (n : ℕ) → IsDigits (decimal n) × (digits_value 0 (decimal n) ≡ n)
unfolding decimal
decimal-value n = decimal_on-value (n + 1) n (omega arith)

append-cons : (xs : Bytes) (d : ℕ) → (c : ℕ) × (cs : Bytes) × (xs ++ (d ∷ []) ≡ c ∷ cs)
append-cons [] d = (d, [], refl)
append-cons (x ∷ xs) d = (x, xs ++ (d ∷ []), refl)

-- At least one digit is printed.
pub decimal-cons : (n : ℕ) → (c : ℕ) × (cs : Bytes) × (decimal n ≡ c ∷ cs)
unfolding decimal decimal_on
decimal-cons n =
    let one : n + 1 ≡ suc n = omega arith in
    elim (Bool-cases (ltb n 10)) [
      | inl small ↦ (b'0' + n, [], rw (one, small) refl)
      | inr large ↦
          let (c, cs, e) = append-cons (decimal_on n (n / 10)) (b'0' + n % 10) in
          (c, cs, rw (one, large) e)
    ]
