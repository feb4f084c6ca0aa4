-- ===== src/Text/Line.antt =====
-- The lines of standard input, and what `trim` leaves of them.
use cpp_network_homework.Prelude.{
  ◌<◌, ◌≡◌, refl, ap, ◌∙◌, false, some, [], ◌∷◌, ◌++◌, ◌==◌, length, All, Bytes, npos,
}
use cpp_network_homework.Text.{trim}
use cpp_network_homework.Text.Strip.{
  strip_left, strip_right, strip_left-StartsTight, strip_right-EndsTight, strip_left-EndsTight,
  strip_left_again, strip_right_again,
}
use cpp_network_homework.Text.Trim.{trim-strip}
use cpp_network_homework.Text.Console.{line_of, after_line}

-- The text without white space at its ends.
abbrev pub stripped : Bytes → Bytes
stripped b = strip_left (strip_right b)

-- A text that is stripped stays as it is when it is stripped again.
pub stripped_again : (b : Bytes) → stripped (stripped b) ≡ stripped b
stripped_again b =
    ap strip_left (
      strip_right_again (stripped b)
        (strip_left-EndsTight (strip_right b) (strip_right-EndsTight b)))
    ∙ strip_left_again (stripped b) (strip_left-StartsTight (strip_right b))

pub line_of-append :
    (l r : Bytes)
    → All (λ c. (c == b'\n') ≡ false) l
    → (line_of (l ++ (b'\n' ∷ r)) ≡ l) × (after_line (l ++ (b'\n' ∷ r)) ≡ r)
unfolding line_of after_line
line_of-append [] r h = (refl, refl)
line_of-append (c ∷ cs) r (h, t) =
    rw h (ap (◌∷◌ c) (line_of-append cs r t).0, (line_of-append cs r t).1)

-- A line of standard input: no newline in it, and shorter than `npos`.
abbrev pub IsLine : Bytes → Type 0
IsLine l = All (λ c. (c == b'\n') ≡ false) l × (length l < npos)

pub trim-line_of : (l r : Bytes) → IsLine l → trim (line_of (l ++ (b'\n' ∷ r))) ≡ some (stripped l)
trim-line_of l r h = rw (line_of-append l r h.0).0 (trim-strip l h.1)
