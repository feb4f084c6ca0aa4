-- ===== src/Text.antt =====
-- White space at the ends of a line: `rtrim`, `ltrim` and `trim`, which hw1/udp_server/main.cpp,
-- hw1/udp_client/main.cpp, hw3/server/main.cpp and hw3/client/main.cpp all declare alike.
pub mod Strip
pub mod Trim
pub mod Number
pub mod Decimal
pub mod Stream
pub mod Command
pub mod Console
pub mod Line
use cpp_network_homework.Prelude.{
  ℕ, ◌+◌, ◌-◌, ◌%◌, min, Bool, ◌||◌, Option, none, some, [], ◌∷◌, ◌++◌, ltb, ◌==◌, if◌then◌else◌,
  length, take, drop, Bytes, size_mod, npos,
}

-- The characters of `ws`.
unfoldable pub is_ws : ℕ → Bool
is_ws c = c == b' ' || c == b'\t' || c == b'\n' || c == b'\r' || c == 12 || c == 11

-- `std::string::find_last_not_of(ws)`: the index of the last other character, or `npos`.
last_from : ℕ → ℕ → Bytes → ℕ
last_from i found [] = found
last_from i found (c ∷ cs) = last_from (i + 1) (if is_ws c then found else i) cs

pub find_last_not_of : Bytes → ℕ
find_last_not_of s = last_from 0 npos s

-- `std::string::find_first_not_of(ws)`.
first_from : ℕ → Bytes → ℕ
first_from i [] = npos
first_from i (c ∷ cs) = let later = first_from (i + 1) cs in if is_ws c then later else i

pub find_first_not_of : Bytes → ℕ
find_first_not_of s = first_from 0 s

-- `std::string::erase(pos, n)`; `none` is the exception `std::out_of_range`.
pub erase : Bytes → ℕ → ℕ → Option Bytes
erase s pos n =
    if ltb (length s) pos then none else some (take pos s ++ drop (pos + min n (length s - pos)) s)

-- The sum `find_last_not_of(t) + 1` is one of `size_t`, so `npos + 1` is 0.
unfoldable pub rtrim : Bytes → Option Bytes
rtrim s = erase s ((find_last_not_of s + 1) % size_mod) npos

unfoldable pub ltrim : Bytes → Option Bytes
ltrim s = erase s 0 (find_first_not_of s)

ltrim_after : Option Bytes → Option Bytes
ltrim_after none = none
ltrim_after (some s) = ltrim s

unfoldable pub trim : Bytes → Option Bytes
unfolding ltrim_after
trim s = ltrim_after (rtrim s)

-- `std::string` of a `char*`: up to the first NUL.
unfoldable pub c_string : Bytes → Bytes
c_string [] = []
c_string (c ∷ cs) = if c == 0 then [] else c ∷ c_string cs
