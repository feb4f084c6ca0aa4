-- ===== src/Text/Number.antt =====
-- Decimal numbers as `std::stoi` and `operator>>` read them, and the conversions between integer
-- types that the programs use. An `int` has 32 bits and a `size_t` has 64.
use cpp_network_homework.Prelude.{
  ℕ, zero, suc, ◌+◌, ◌-◌, ◌*◌, ◌%◌, ◌^◌, Bool, true, false, not, ◌&&◌, ◌||◌, [], ◌∷◌, leb, ◌==◌,
  if◌then◌else◌, Bytes, size_mod,
}
use cpp_network_homework.Text.{is_ws}
use cpp_network_homework.Text.Strip.{strip_left}

-- `negsuc n` is -(n + 1).
pub data ℤ : Type 0 where
  pos : ℕ → ℤ
  negsuc : ℕ → ℤ

unfoldable pub negate : ℕ → ℤ
negate zero = pos 0
negate (suc n) = negsuc n

unfoldable pub is_digit : ℕ → Bool
is_digit c = leb b'0' c && leb c b'9'

-- The value of the digits that stand first, after `acc`.
unfoldable pub digits_value : ℕ → Bytes → ℕ
unfolding is_digit
digits_value acc [] = acc
digits_value acc (c ∷ cs) =
    let more = digits_value (acc * 10 + (c - b'0')) cs in if is_digit c then more else acc

unfoldable pub after_digits : Bytes → Bytes
unfolding is_digit
after_digits [] = []
after_digits (c ∷ cs) = let more = after_digits cs in if is_digit c then more else c ∷ cs

unfoldable pub starts_digit : Bytes → Bool
unfolding is_digit
starts_digit [] = false
starts_digit (c ∷ cs) = is_digit c

-- The sign, and what stands behind it.
unfoldable pub is_negative : Bytes → Bool
is_negative [] = false
is_negative (c ∷ cs) = c == b'-'

unfoldable pub after_sign : Bytes → Bytes
after_sign [] = []
after_sign (c ∷ cs) = if c == b'-' || c == b'+' then cs else c ∷ cs

abbrev pub int_max : ℕ
int_max = 2 ^ 31 - 1

-- `int_min` is -(int_max + 1).
unfoldable pub fits_int : Bool → ℕ → Bool
fits_int true n = leb n (int_max + 1)
fits_int false n = leb n int_max

unfoldable pub signed : Bool → ℕ → ℤ
unfolding negate
signed true n = negate n
signed false n = pos n

-- What a number that does not fit an `int` is read as.
unfoldable pub limit : Bool → ℤ
limit true = negsuc int_max
limit false = pos int_max

-- `std::stoi`: a value, or one of its two exceptions.
pub data Stoi : Type 0 where
  value : ℤ → Stoi
  invalid_argument out_of_range : Stoi

stoi_signed : Bool → Bytes → Stoi
stoi_signed neg s =
    if not (starts_digit s)
    then invalid_argument
    else if fits_int neg (digits_value 0 s)
    then value (signed neg (digits_value 0 s))
    else out_of_range

unfoldable pub stoi : Bytes → Stoi
unfolding stoi_signed starts_digit digits_value fits_int signed is_negative after_sign strip_left
    is_ws
stoi s = stoi_signed (is_negative (strip_left s)) (after_sign (strip_left s))

-- `static_cast<std::size_t>` of an `int`, and `static_cast<uint16_t>`.
unfoldable pub to_size_t : ℤ → ℕ
to_size_t (pos n) = n
to_size_t (negsuc n) = size_mod - 1 - n

unfoldable pub to_uint16 : ℤ → ℕ
to_uint16 (pos n) = n % 2 ^ 16
to_uint16 (negsuc n) = 2 ^ 16 - 1 - n % 2 ^ 16
