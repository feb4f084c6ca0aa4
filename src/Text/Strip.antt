-- ===== src/Text/Strip.antt =====
-- `strip_left` and `strip_right`, the plain recursions that the index arithmetic of `ltrim` and
-- `rtrim` comes to.
use cpp_network_homework.Prelude.{
  ℕ, ◌≡◌, refl, ap, ◌∙◌, inl, inr, true, false, [], ◌∷◌, ◌++◌, arith, if◌then◌else◌, Bool-cases,
  All, Bytes,
}
use cpp_network_homework.Text.{is_ws}

abbrev pub IsBlank : Bytes → Type 0
IsBlank = All (λ c. is_ws c ≡ true)

-- The first character, if there is one, is no white space.
abbrev pub StartsTight : Bytes → Type 0
StartsTight [] = Unit
StartsTight (c ∷ cs) = is_ws c ≡ false

-- So is the last.
abbrev pub EndsTight : Bytes → Type 0
EndsTight [] = Unit
EndsTight (c ∷ []) = is_ws c ≡ false
EndsTight (c ∷ d ∷ cs) = EndsTight (d ∷ cs)

unfoldable pub strip_left : Bytes → Bytes
strip_left [] = []
strip_left (c ∷ cs) = let rest = strip_left cs in if is_ws c then rest else c ∷ cs

-- `c` in front of what is left of the rest.
unfoldable pub keep : ℕ → Bytes → Bytes
keep c [] = if is_ws c then [] else c ∷ []
keep c (d ∷ ds) = c ∷ d ∷ ds

unfoldable pub strip_right : Bytes → Bytes
strip_right [] = []
strip_right (c ∷ cs) = keep c (strip_right cs)

-- What the two remove.
unfoldable pub left_of : Bytes → Bytes
left_of [] = []
left_of (c ∷ cs) = let rest = left_of cs in if is_ws c then c ∷ rest else []

drop_kept : ℕ → Bytes → Bytes → Bytes
drop_kept c [] r = if is_ws c then c ∷ r else r
drop_kept c (d ∷ ds) r = r

pub right_of : Bytes → Bytes
right_of [] = []
right_of (c ∷ cs) = drop_kept c (strip_right cs) (right_of cs)

pub left_of-strip_left : (s : Bytes) → left_of s ++ strip_left s ≡ s
unfolding left_of strip_left
left_of-strip_left [] = refl
left_of-strip_left (c ∷ cs) = ground (arith, left_of-strip_left cs)

pub left_of-IsBlank : (s : Bytes) → IsBlank (left_of s)
unfolding left_of
left_of-IsBlank [] = tt
left_of-IsBlank (c ∷ cs) = elim (Bool-cases (is_ws c)) [
  | inl w ↦ rw w (w, left_of-IsBlank cs)
  | inr b ↦ rw b tt
]

pub strip_left-StartsTight : (s : Bytes) → StartsTight (strip_left s)
unfolding strip_left
strip_left-StartsTight [] = tt
strip_left-StartsTight (c ∷ cs) = elim (Bool-cases (is_ws c)) [
  | inl w ↦ rw w (strip_left-StartsTight cs)
  | inr b ↦ rw b b
]

keep-append : (c : ℕ) (k r : Bytes) → keep c k ++ drop_kept c k r ≡ c ∷ (k ++ r)
unfolding keep drop_kept
keep-append c [] r = ground arith
keep-append c (d ∷ ds) r = refl

pub strip_right-right_of : (s : Bytes) → strip_right s ++ right_of s ≡ s
unfolding strip_right right_of
strip_right-right_of [] = refl
strip_right-right_of (c ∷ cs) =
    keep-append c (strip_right cs) (right_of cs) ∙ ap (◌∷◌ c) (strip_right-right_of cs)

drop_kept-IsBlank : (c : ℕ) (k r : Bytes) → IsBlank r → IsBlank (drop_kept c k r)
unfolding drop_kept
drop_kept-IsBlank c [] r h = elim (Bool-cases (is_ws c)) [ inl w ↦ rw w (w, h) | inr b ↦ rw b h ]
drop_kept-IsBlank c (d ∷ ds) r h = h

pub right_of-IsBlank : (s : Bytes) → IsBlank (right_of s)
unfolding right_of
right_of-IsBlank [] = tt
right_of-IsBlank (c ∷ cs) = drop_kept-IsBlank c (strip_right cs) (right_of cs) (right_of-IsBlank cs)

keep-EndsTight : (c : ℕ) (k : Bytes) → EndsTight k → EndsTight (keep c k)
unfolding keep
keep-EndsTight c [] h = elim (Bool-cases (is_ws c)) [ inl w ↦ rw w tt | inr b ↦ rw b b ]
keep-EndsTight c (d ∷ ds) h = h

pub strip_right-EndsTight : (s : Bytes) → EndsTight (strip_right s)
unfolding strip_right
strip_right-EndsTight [] = tt
strip_right-EndsTight (c ∷ cs) = keep-EndsTight c (strip_right cs) (strip_right-EndsTight cs)

pub strip_left-EndsTight : (s : Bytes) → EndsTight s → EndsTight (strip_left s)
unfolding strip_left
strip_left-EndsTight [] h = tt
strip_left-EndsTight (c ∷ []) h = elim (Bool-cases (is_ws c)) [ inl w ↦ rw w tt | inr b ↦ rw b h ]
strip_left-EndsTight (c ∷ d ∷ cs) h = elim (Bool-cases (is_ws c)) [
  | inl w ↦ rw w (strip_left-EndsTight (d ∷ cs) h)
  | inr b ↦ rw b h
]

pub strip_left_again : (s : Bytes) → StartsTight s → strip_left s ≡ s
unfolding strip_left
strip_left_again [] h = refl
strip_left_again (c ∷ cs) h = rw h refl

keep_again : (c : ℕ) (s : Bytes) → EndsTight (c ∷ s) → keep c s ≡ c ∷ s
unfolding keep
keep_again c [] h = rw h refl
keep_again c (d ∷ ds) h = refl

pub strip_right_again : (s : Bytes) → EndsTight s → strip_right s ≡ s
unfolding strip_right
strip_right_again [] h = refl
strip_right_again (c ∷ []) h = keep_again c [] h
strip_right_again (c ∷ d ∷ cs) h =
    ap (keep c) (strip_right_again (d ∷ cs) h) ∙ keep_again c (d ∷ cs) h
