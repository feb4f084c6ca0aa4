-- ===== src/Text/Trim.antt =====
-- `trim` removes white space at both ends, and nothing else.
use cpp_network_homework.Prelude.{
  ℕ, ◌+◌, ◌-◌, ◌%◌, ◌≤◌, ◌<◌, min, ◌≡◌, refl, sym, ap, subst, ◌∙◌, some, [], ◌∷◌, ◌++◌, append-nil,
  append_assoc, arith, ◌==◌, if◌then◌else◌, length, length-append, drop_all, take-length-append,
  drop-length-append, Bytes, size_mod, npos,
}
use cpp_network_homework.Text.{
  is_ws, last_from, find_last_not_of, first_from, find_first_not_of, erase, rtrim, ltrim,
  ltrim_after, trim,
}
use cpp_network_homework.Text.Strip.{
  IsBlank, StartsTight, EndsTight, strip_left, keep, strip_right, left_of, right_of,
  left_of-strip_left, left_of-IsBlank, strip_left-StartsTight, strip_right-right_of,
  right_of-IsBlank, strip_right-EndsTight, strip_left-EndsTight,
}

last_from_keep :
    (c i found : ℕ) (k : Bytes)
    → (if length k == 0 then (if is_ws c then found else i) else i + 1 + length k - 1)
      ≡ (if length (keep c k) == 0 then found else i + length (keep c k) - 1)
unfolding keep
last_from_keep c i found [] = ground arith
last_from_keep c i found (d ∷ ds) = ground arith

last_from-strip_right :
    (s : Bytes) (i found : ℕ)
    → last_from i found s
      ≡ (if length (strip_right s) == 0 then found else i + length (strip_right s) - 1)
unfolding last_from strip_right keep
last_from-strip_right [] i found = refl
last_from-strip_right (c ∷ cs) i found =
    last_from-strip_right cs (i + 1) (if is_ws c then found else i)
    ∙ last_from_keep c i found (strip_right cs)

first_from-strip_left :
    (s : Bytes) (i : ℕ)
    → first_from i s ≡ (if length (strip_left s) == 0 then npos else i + length (left_of s))
unfolding first_from strip_left left_of
first_from-strip_left [] i = refl
first_from-strip_left (c ∷ cs) i = ground (arith, first_from-strip_left cs (i + 1))

-- Erasing to the end from the length of `a` leaves `a`.
erase_suffix : (a b : Bytes) → length (a ++ b) < npos → erase (a ++ b) (length a) npos ≡ some a
unfolding erase
erase_suffix a b h = ground (
  arith,
  length-append a b,
  take-length-append a b,
  drop_all (length a + min npos (length (a ++ b) - length a)) (a ++ b),
  append-nil a,
)

erase_prefix :
    (a b : Bytes) (n : ℕ) → min n (length (a ++ b)) ≡ length a → erase (a ++ b) 0 n ≡ some b
unfolding erase
erase_prefix a b n h =
    let e : 0 + min n (length (a ++ b) - 0) ≡ length a = omega arith in
    rw (e, drop-length-append) (ground arith)

find_last_not_of-strip_right :
    (s : Bytes) → length s < npos → (find_last_not_of s + 1) % size_mod ≡ length (strip_right s)
unfolding find_last_not_of
find_last_not_of-strip_right s h = ground (
  arith,
  last_from-strip_right s 0 npos,
  length-append (strip_right s) (right_of s),
  ap length (strip_right-right_of s),
)

pub rtrim-strip_right : (s : Bytes) → length s < npos → rtrim s ≡ some (strip_right s)
unfolding rtrim
rtrim-strip_right s h = rw (find_last_not_of-strip_right s h) (
    subst (λ t. erase t (length (strip_right s)) npos ≡ some (strip_right s))
      (strip_right-right_of s)
      (erase_suffix (strip_right s) (right_of s)
        (subst (λ t. length t < npos) (sym (strip_right-right_of s)) h)))

pub ltrim-strip_left : (s : Bytes) → length s < npos → ltrim s ≡ some (strip_left s)
unfolding ltrim find_first_not_of
ltrim-strip_left s h =
    subst (λ t. erase t 0 (first_from 0 s) ≡ some (strip_left s)) (left_of-strip_left s)
      (erase_prefix (left_of s) (strip_left s) (first_from 0 s) (
        ground (
          arith,
          first_from-strip_left s 0,
          length-append (left_of s) (strip_left s),
          ap length (left_of-strip_left s),
        )))

length-strip_right-le : (s : Bytes) → length (strip_right s) ≤ length s
length-strip_right-le s =
    omega (arith, length-append (strip_right s) (right_of s), ap length (strip_right-right_of s))

pub trim-strip : (s : Bytes) → length s < npos → trim s ≡ some (strip_left (strip_right s))
unfolding trim ltrim_after
trim-strip s h =
    rw (rtrim-strip_right s h)
      (ltrim-strip_left (strip_right s) (omega (arith, length-strip_right-le s)))

-- `t` is `s` without the white space at its ends.
pub record IsTrimOf (s t : Bytes) : Type 0 where
  pub before : Bytes
  pub after : Bytes
  pub splits : s ≡ before ++ (t ++ after)
  pub before_blank : IsBlank before
  pub after_blank : IsBlank after
  pub starts : StartsTight t
  pub ends : EndsTight t

strip-IsTrimOf : (s : Bytes) → IsTrimOf s (strip_left (strip_right s))
strip-IsTrimOf s = record {
  before = left_of (strip_right s);
  after = right_of s;
  splits =
      sym (strip_right-right_of s)
      ∙ ap (λ t. t ++ right_of s) (sym (left_of-strip_left (strip_right s)))
      ∙ append_assoc (left_of (strip_right s)) (strip_left (strip_right s)) (right_of s);
  before_blank = left_of-IsBlank (strip_right s);
  after_blank = right_of-IsBlank s;
  starts = strip_left-StartsTight (strip_right s);
  ends = strip_left-EndsTight (strip_right s) (strip_right-EndsTight s);
}

-- For a string shorter than `npos`, `trim` throws nothing and returns a string that neither
-- starts nor ends with white space; the argument is that string with only white space put
-- before and behind it.
pub trim-IsTrimOf : (s : Bytes) → length s < npos → (t : Bytes) × (trim s ≡ some t) × IsTrimOf s t
trim-IsTrimOf s h = (strip_left (strip_right s), trim-strip s h, strip-IsTrimOf s)
