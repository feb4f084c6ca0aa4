-- ===== src/Text/Command.antt =====
-- What `parse_command` reads from a command line.
use cpp_network_homework.Prelude.{
  ℕ, ◌≤◌, ◌≡◌, refl, ap, ap₂, ◌∙◌, true, false, [], ◌∷◌, ◌++◌, arith, le→leb, All, Bytes,
}
use cpp_network_homework.Text.{is_ws}
use cpp_network_homework.Text.Number.{
  ℤ, pos, is_digit, digits_value, starts_digit, is_negative, after_sign, int_max, fits_int, signed,
}
use cpp_network_homework.Text.Strip.{strip_left}
use cpp_network_homework.Text.Stream.{
  Stream, word_of, after_word, word_from, read_word, int_signed, int_from, read_int, nul,
  parse_command,
}

-- A word: at least one character, none of them white space.
abbrev pub IsWord : Bytes → Type 0
IsWord [] = ⊥
IsWord (c ∷ cs) = All (λ d. is_ws d ≡ false) (c ∷ cs)

-- A decimal number: at least one character, all of them digits.
abbrev pub IsDecimal : Bytes → Type 0
IsDecimal [] = ⊥
IsDecimal (c ∷ cs) = All (λ d. is_digit d ≡ true) (c ∷ cs)

word_of-append :
    (w : Bytes) (s : ℕ) (r : Bytes)
    → All (λ d. is_ws d ≡ false) w
    → is_ws s ≡ true
    → word_of (w ++ (s ∷ r)) ≡ w
unfolding word_of
word_of-append [] s r h b = rw b
word_of-append (c ∷ cs) s r (h, t) b = rw h (ap (◌∷◌ c) (word_of-append cs s r t b))

after_word-append :
    (w : Bytes) (s : ℕ) (r : Bytes)
    → All (λ d. is_ws d ≡ false) w
    → is_ws s ≡ true
    → after_word (w ++ (s ∷ r)) ≡ s ∷ r
unfolding after_word
after_word-append [] s r h b = rw b
after_word-append (c ∷ cs) s r (h, t) b = rw h (after_word-append cs s r t b)

word_of-All : (w : Bytes) → All (λ d. is_ws d ≡ false) w → word_of w ≡ w
unfolding word_of
word_of-All [] h = refl
word_of-All (c ∷ cs) (h, t) = rw h (ap (◌∷◌ c) (word_of-All cs t))

after_word-All : (w : Bytes) → All (λ d. is_ws d ≡ false) w → after_word w ≡ []
unfolding after_word
after_word-All [] h = refl
after_word-All (c ∷ cs) (h, t) = rw h (after_word-All cs t)

abbrev open_at : Bytes → Stream
open_at r = record { rest = r; good = true }

pub strip_left_blank : (s : ℕ) (r : Bytes) → is_ws s ≡ true → strip_left (s ∷ r) ≡ strip_left r
unfolding strip_left
strip_left_blank s r b = rw b

pub strip_left_tight : (c : ℕ) (r : Bytes) → is_ws c ≡ false → strip_left (c ∷ r) ≡ c ∷ r
unfolding strip_left
strip_left_tight c r b = rw b

-- A word with white space behind it is read whole.
read_word-IsWord :
    (w target : Bytes) (s : ℕ) (r : Bytes)
    → IsWord w
    → is_ws s ≡ true
    → read_word (open_at (w ++ (s ∷ r))) target ≡ (w, open_at (s ∷ r))
unfolding read_word
read_word-IsWord [] target s r h b = absurd h
read_word-IsWord (c ∷ cs) target s r h b =
    ap (word_from target) (strip_left_tight c (cs ++ (s ∷ r)) h.0)
    ∙ rw (word_of-append (c ∷ cs) s r h b, after_word-append (c ∷ cs) s r h b)

-- A word that ends the text leaves a stream that gives nothing more.
read_word_last :
    (w target : Bytes)
    → IsWord w
    → read_word (open_at w) target ≡ (w, record { rest = []; good = false })
unfolding read_word
read_word_last [] target h = absurd h
read_word_last (c ∷ cs) target h =
    ap (word_from target) (strip_left_tight c cs h.0)
    ∙ rw (word_of-All (c ∷ cs) h, after_word-All (c ∷ cs) h)

-- White space in front is passed over.
read_word_blank :
    (s : ℕ) (r target : Bytes)
    → is_ws s ≡ true
    → read_word (open_at (s ∷ r)) target ≡ read_word (open_at r) target
unfolding read_word
read_word_blank s r target b = ap (word_from target) (strip_left_blank s r b)

read_int_blank :
    (s : ℕ) (r : Bytes) (target : ℤ)
    → is_ws s ≡ true
    → read_int (open_at (s ∷ r)) target ≡ read_int (open_at r) target
unfolding read_int
read_int_blank s r target b = ap (int_from target) (strip_left_blank s r b)

pub is_ws_of_digit : (c : ℕ) → is_digit c ≡ true → is_ws c ≡ false
unfolding is_digit is_ws
is_ws_of_digit c h = ground arith

pub not-is_negative : (c : ℕ) (cs : Bytes) → is_digit c ≡ true → is_negative (c ∷ cs) ≡ false
unfolding is_negative is_digit
not-is_negative c cs h = ground arith

pub after_sign_digit : (c : ℕ) (cs : Bytes) → is_digit c ≡ true → after_sign (c ∷ cs) ≡ c ∷ cs
unfolding after_sign is_digit
after_sign_digit c cs h = ground arith

int_signed_digit :
    (c : ℕ) (cs : Bytes)
    → is_digit c ≡ true
    → digits_value 0 (c ∷ cs) ≤ int_max
    → int_signed false (c ∷ cs) ≡ pos (digits_value 0 (c ∷ cs))
unfolding int_signed
int_signed_digit c cs h b =
    let fits : fits_int false (digits_value 0 (c ∷ cs)) ≡ true = unfold fits_int in le→leb _ _ b in
    let starts : starts_digit (c ∷ cs) ≡ true = unfold starts_digit in h in
    rw (starts, fits) (unfold signed in refl)

-- A decimal number that fits an `int` is read as its value.
read_int-IsDecimal :
    (ds : Bytes) (target : ℤ)
    → IsDecimal ds
    → digits_value 0 ds ≤ int_max
    → read_int (open_at ds) target ≡ pos (digits_value 0 ds)
unfolding read_int
read_int-IsDecimal [] target h b = absurd h
read_int-IsDecimal (c ∷ cs) target h b =
    ap (int_from target) (strip_left_tight c cs (is_ws_of_digit c h.0))
    ∙ ap₂ int_signed (not-is_negative c cs h.0) (after_sign_digit c cs h.0)
    ∙ int_signed_digit c cs h.0 b

module _ (c f x : Bytes) (s₁ s₂ s₃ : ℕ) (ds : Bytes) where
  abbrev pub command_line : Bytes
  command_line = c ++ (s₁ ∷ (f ++ (s₂ ∷ (x ++ (s₃ ∷ ds)))))

-- A line of three words and a number that fits an `int`, with a character of white space after
-- each word, is read as those words and that number.
pub parse_command-command_line :
    (c f x : Bytes) (s₁ s₂ s₃ : ℕ) (ds : Bytes)
    → IsWord c
    → IsWord f
    → IsWord x
    → is_ws s₁ ≡ true
    → is_ws s₂ ≡ true
    → is_ws s₃ ≡ true
    → IsDecimal ds
    → digits_value 0 ds ≤ int_max
    → parse_command (command_line c f x s₁ s₂ s₃ ds)
      ≡ record { command = c; filename = f; fiction = x; size_fict = pos (digits_value 0 ds) }
unfolding parse_command
parse_command-command_line c f x s₁ s₂ s₃ ds hc hf hx b₁ b₂ b₃ hd hb = simp (
  read_word-IsWord c nul s₁ (f ++ (s₂ ∷ (x ++ (s₃ ∷ ds)))) hc b₁,
  read_word_blank s₁ (f ++ (s₂ ∷ (x ++ (s₃ ∷ ds)))) nul b₁,
  read_word-IsWord f nul s₂ (x ++ (s₃ ∷ ds)) hf b₂,
  read_word_blank s₂ (x ++ (s₃ ∷ ds)) nul b₂,
  read_word-IsWord x nul s₃ ds hx b₃,
  read_int_blank s₃ ds (pos 0) b₃,
  read_int-IsDecimal ds (pos 0) hd hb,
)

-- A line of one word leaves the other variables as they were made: one NUL each, and 0.
pub parse_command_word :
    (c : Bytes)
    → IsWord c
    → parse_command c ≡ record { command = c; filename = nul; fiction = nul; size_fict = pos 0 }
unfolding parse_command
parse_command_word c h = simp (read_word_last c nul h) (unfold read_word read_int in refl)
