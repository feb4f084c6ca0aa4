-- ===== src/Text/Console.antt =====
-- Standard input: `std::getline`, and `read_host` and `read_port`, which hw1/udp_client/main.cpp
-- and hw3/client/main.cpp declare alike.
use cpp_network_homework.Prelude.{
  ℕ, ◌+◌, ◌-◌, ◌*◌, ◌%◌, ◌^◌, ◌<◌, ◌≡◌, refl, ap, ap₂, ◌∙◌, Bool, true, false, not, ◌||◌, Option,
  none, some, [], ◌∷◌, ◌++◌, arith, ltb, ◌==◌, if◌then◌else◌, All, Bytes,
}
use cpp_network_homework.Text.{is_ws}
use cpp_network_homework.Text.Number.{
  is_digit, digits_value, after_digits, starts_digit, is_negative, after_sign,
}
use cpp_network_homework.Text.Strip.{strip_left}
use cpp_network_homework.Text.Command.{
  strip_left_tight, is_ws_of_digit, not-is_negative, after_sign_digit,
}
use cpp_network_homework.Text.Stream.{Stream, is_empty, read_word}

-- `std::getline`: the characters before the next newline, and what stands behind it. At the end of
-- the input the line is empty.
unfoldable pub line_of : Bytes → Bytes
line_of [] = []
line_of (c ∷ cs) = if c == b'\n' then [] else c ∷ line_of cs

unfoldable pub after_line : Bytes → Bytes
after_line [] = []
after_line (c ∷ cs) = let more = after_line cs in if c == b'\n' then cs else more

unfoldable pub read_host : Stream → Bytes × Stream
read_host input = read_word input []

-- `>>` into a `uint16_t`: a minus sign negates modulo 2 ^ 16, a number that is too large sets the
-- fail bit, and so does a text that is no number.
uint16_signed : Bool → Bytes → ℕ × Stream
uint16_signed neg s =
    if not (starts_digit s)
    then (0, record { rest = s; good = false })
    else if ltb (2 ^ 16 - 1) (digits_value 0 s)
    then (2 ^ 16 - 1, record { rest = after_digits s; good = false })
    else (
      if neg then (2 ^ 16 - digits_value 0 s) % 2 ^ 16 else digits_value 0 s,
      record { rest = after_digits s; good = not (is_empty (after_digits s)) },
    )

uint16_from : Bytes → ℕ × Stream
uint16_from [] = (0, record { rest = []; good = false })
uint16_from (c ∷ cs) = uint16_signed (is_negative (c ∷ cs)) (after_sign (c ∷ cs))

read_uint16 : Stream → ℕ × Stream
read_uint16 s = if s.good then uint16_from (strip_left s.rest) else (0, s)

-- `while (std::cin.get() != '\n');`: what stands behind the next newline. `none` is the loop that
-- does not end, for `get` gives no newline at the end of the input or after a failure.
skip_line : Bytes → Option Bytes
skip_line [] = none
skip_line (c ∷ cs) = let more = skip_line cs in if c == b'\n' then some cs else more

skip_in : Stream → Option Bytes
skip_in s = if s.good then skip_line s.rest else none

-- The port, and the input behind its line.
port_behind : ℕ × Stream → Option (ℕ × Bytes)
port_behind (port, s) = elim (skip_in s) [ none ↦ none | some more ↦ some (port, more) ]

pub read_port : Stream → Option (ℕ × Bytes)
read_port input = port_behind (read_uint16 input)

digits_then :
    (ds r : Bytes)
    → All (λ d. is_digit d ≡ true) ds
    → (acc : ℕ)
    → (digits_value acc (ds ++ (b'\n' ∷ r)) ≡ digits_value acc ds)
      × (after_digits (ds ++ (b'\n' ∷ r)) ≡ b'\n' ∷ r)
unfolding digits_value after_digits
digits_then [] r h acc = (refl, refl)
digits_then (c ∷ cs) r (h, t) acc = rw h (digits_then cs r t (acc * 10 + (c - b'0')))

uint16_digits :
    (c : ℕ) (cs r : Bytes)
    → All (λ d. is_digit d ≡ true) (c ∷ cs)
    → digits_value 0 (c ∷ cs) < 2 ^ 16
    → uint16_signed false ((c ∷ cs) ++ (b'\n' ∷ r))
      ≡ (digits_value 0 (c ∷ cs), record { rest = b'\n' ∷ r; good = true })
unfolding uint16_signed
uint16_digits c cs r h b =
    let starts : starts_digit ((c ∷ cs) ++ (b'\n' ∷ r)) ≡ true = unfold starts_digit in h.0 in
    let small : ltb (2 ^ 16 - 1) (digits_value 0 (c ∷ cs)) ≡ false = ground arith in
    rw (starts, (digits_then (c ∷ cs) r h 0).0, (digits_then (c ∷ cs) r h 0).1, small)
      (unfold is_empty in refl)

read_uint16_digits :
    (c : ℕ) (cs r : Bytes)
    → All (λ d. is_digit d ≡ true) (c ∷ cs)
    → digits_value 0 (c ∷ cs) < 2 ^ 16
    → read_uint16 (record { rest = (c ∷ cs) ++ (b'\n' ∷ r); good = true })
      ≡ (digits_value 0 (c ∷ cs), record { rest = b'\n' ∷ r; good = true })
unfolding read_uint16 uint16_from
read_uint16_digits c cs r h b =
    ap uint16_from (strip_left_tight c (cs ++ (b'\n' ∷ r)) (is_ws_of_digit c h.0))
    ∙ ap₂ uint16_signed (not-is_negative c (cs ++ (b'\n' ∷ r)) h.0)
        (after_sign_digit c (cs ++ (b'\n' ∷ r)) h.0)
    ∙ uint16_digits c cs r h b

-- A port of decimal digits below 2 ^ 16, with its line's end behind it, is read as its value, and
-- the whole line is taken.
pub read_port-IsDecimal :
    (c : ℕ) (cs r : Bytes)
    → All (λ d. is_digit d ≡ true) (c ∷ cs)
    → digits_value 0 (c ∷ cs) < 2 ^ 16
    → read_port (record { rest = (c ∷ cs) ++ (b'\n' ∷ r); good = true })
      ≡ some (digits_value 0 (c ∷ cs), r)
unfolding read_port
read_port-IsDecimal c cs r h b =
    ap port_behind (read_uint16_digits c cs r h b) ∙ unfold port_behind skip_in skip_line in refl

-- A line that starts with no digit, sign or white space is never left: the loop behind the failed
-- `>>` does not end.
pub read_port_hangs :
    (c : ℕ) (r : Bytes)
    → is_ws c ≡ false
    → is_digit c ≡ false
    → (c == b'-' || c == b'+') ≡ false
    → read_port (record { rest = c ∷ r; good = true }) ≡ none
unfolding read_port read_uint16 skip_in
read_port_hangs c r h d g =
    let bad : read_uint16 (record { rest = c ∷ r; good = true })
        ≡ (0, record { rest = c ∷ r; good = false }) =
      ap uint16_from (strip_left_tight c r h)
      ∙ unfold uint16_from uint16_signed is_negative after_sign starts_digit in ground arith in
    ap port_behind bad ∙ unfold port_behind skip_in in refl
