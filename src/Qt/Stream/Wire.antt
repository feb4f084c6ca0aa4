-- ===== src/Qt/Stream/Wire.antt =====
-- The big-endian encoding that Qt's documentation describes: it shows that what is assumed of
-- `QDataStream` can be met.
use cpp_network_homework.Prelude.{
  ℕ, zero, suc, ◌+◌, ◌*◌, ◌/◌, ◌%◌, ◌^◌, ◌≤◌, ◌<◌, ◌≡◌, refl, ap, ◌∙◌, [], ◌∷◌, ◌++◌, append_assoc,
  arith, length, All, length-append, Bytes,
}
use cpp_network_homework.Qt.Stream.{Text, DataStream, IsQString, IsQt}

abbrev bytes_of : ℕ → Bytes → Bytes
bytes_of n r = (n / 256 % 256) ∷ (n % 256) ∷ r

units_of : Text → Bytes
units_of [] = []
units_of (u ∷ us) = bytes_of u (units_of us)

put16 : ℕ → Bytes
put16 n = bytes_of n []

put32 : ℕ → Bytes
put32 n = bytes_of (n / 65536) (bytes_of n [])

put_text : Text → Bytes
put_text s = put32 (2 * length s) ++ units_of s

get16 : Bytes → ℕ × Bytes
get16 [] = (0, [])
get16 (a ∷ []) = (0, [])
get16 (a ∷ b ∷ r) = (a * 256 + b, r)

get32 : Bytes → ℕ × Bytes
get32 b = let hi = get16 b in let lo = get16 hi.1 in (hi.0 * 65536 + lo.0, lo.1)

take_units : ℕ → Bytes → Text × Bytes
take_units zero r = ([], r)
take_units (suc k) [] = ([], [])
take_units (suc k) (a ∷ []) = ([], [])
take_units (suc k) (a ∷ b ∷ r) = let more = take_units k r in ((a * 256 + b) ∷ more.0, more.1)

get_text : Bytes → Text × Bytes
get_text b = let n = get32 b in take_units (n.0 / 2) n.1

unfoldable pub wire : DataStream
unfolding put16 put32 put_text get16 get32 get_text units_of take_units
wire = record {
  put_uint16 = put16;
  put_uint32 = put32;
  put_string = put_text;
  get_uint16 = get16;
  get_uint32 = get32;
  get_string = get_text;
}

length-units_of : (s : Text) → length (units_of s) ≡ 2 * length s
unfolding units_of
length-units_of [] = omega arith
length-units_of (u ∷ us) = omega (arith, length-units_of us)

take_units-units_of :
    (s : Text) (r : Bytes)
    → All (λ u. u < 2 ^ 16) s
    → take_units (length s) (units_of s ++ r) ≡ (s, r)
unfolding take_units units_of
take_units-units_of [] r h = refl
take_units-units_of (u ∷ us) r (h, t) =
    let e : u / 256 % 256 * 256 + u % 256 ≡ u = omega arith in rw (e, take_units-units_of us r t)

get32-put32 : (n : ℕ) (r : Bytes) → n < 2 ^ 32 → get32 (put32 n ++ r) ≡ (n, r)
unfolding get32 put32 get16
get32-put32 n r h = ground arith

get_text-put_text : (s : Text) (r : Bytes) → IsQString s → get_text (put_text s ++ r) ≡ (s, r)
unfolding get_text put_text
get_text-put_text s r (h, l) =
    let n : get32 ((put32 (2 * length s) ++ units_of s) ++ r) ≡ (2 * length s, units_of s ++ r) =
      ap get32 (append_assoc (put32 (2 * length s)) (units_of s) r)
      ∙ get32-put32 (2 * length s) (units_of s ++ r) (omega arith) in
    let k : 2 * length s / 2 ≡ length s = omega arith in rw (n, k) (take_units-units_of s r h)

length-get16 : (b : Bytes) → length (get16 b).1 ≤ length b
unfolding get16
length-get16 [] = omega arith
length-get16 (a ∷ []) = omega arith
length-get16 (a ∷ c ∷ r) = omega arith

length-take_units : (k : ℕ) (b : Bytes) → length (take_units k b).1 ≤ length b
unfolding take_units
length-take_units zero r = omega arith
length-take_units (suc k) [] = omega arith
length-take_units (suc k) (a ∷ []) = omega arith
length-take_units (suc k) (a ∷ b ∷ r) = omega (arith, length-take_units k r)

length-get_text : (b : Bytes) → length (get_text b).1 ≤ length b
unfolding get_text get32
length-get_text b = omega (
  arith,
  length-get16 b,
  length-get16 (get16 b).1,
  length-take_units (((get16 b).0 * 65536 + (get16 (get16 b).1).0) / 2) (get16 (get16 b).1).1,
)

length-get16_two : (b : Bytes) → 2 ≤ length b → length (get16 b).1 + 2 ≤ length b
unfolding get16
length-get16_two [] h = absurd (omega arith)
length-get16_two (a ∷ []) h = absurd (omega arith)
length-get16_two (a ∷ c ∷ r) h = omega arith

pub wire-IsQt : IsQt wire
unfolding wire
wire-IsQt = record {
  length-put_uint16 = λ n. refl;
  length-put_uint32 = λ n. refl;
  length-put_string =
      λ s h. length-append (put32 (2 * length s)) (units_of s) ∙ omega (arith, length-units_of s);
  get-put_uint16 = λ n r h. ground arith;
  get-put_uint32 = get32-put32;
  get-put_string = get_text-put_text;
  length-get_string = length-get_text;
  length-get_uint16 = length-get16_two;
}
