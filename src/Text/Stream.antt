-- ===== src/Text/Stream.antt =====
-- `std::istringstream` with `operator>>` into a string and into an `int`. A stream is good while
-- neither its fail bit nor its end bit is set; a stream that is not good gives nothing.
use cpp_network_homework.Prelude.{Bool, true, false, not, [], ◌∷◌, if◌then◌else◌, Bytes}
use cpp_network_homework.Text.{is_ws}
use cpp_network_homework.Text.Strip.{strip_left}
use cpp_network_homework.Text.Number.{
  ℤ, pos, digits_value, starts_digit, is_negative, after_sign, fits_int, signed, limit,
}

pub record Stream : Type 0 where
  pub rest : Bytes
  pub good : Bool

-- The characters up to the next white space, and what is left behind them.
unfoldable pub word_of : Bytes → Bytes
word_of [] = []
word_of (c ∷ cs) = if is_ws c then [] else c ∷ word_of cs

unfoldable pub after_word : Bytes → Bytes
after_word [] = []
after_word (c ∷ cs) = let more = after_word cs in if is_ws c then c ∷ cs else more

unfoldable pub is_empty : Bytes → Bool
is_empty [] = true
is_empty (c ∷ cs) = false

-- What `>> target` stores, and the stream behind it. The white space in front is skipped; where
-- nothing follows it, the target keeps its value. A word that ends the text sets the end bit.
unfoldable pub word_from : Bytes → Bytes → Bytes × Stream
word_from target [] = (target, record { rest = []; good = false })
word_from target (c ∷ cs) = (
  word_of (c ∷ cs),
  record { rest = after_word (c ∷ cs); good = not (is_empty (after_word (c ∷ cs))) },
)

unfoldable pub read_word : Stream → Bytes → Bytes × Stream
unfolding word_from is_empty
read_word s target =
    if s.good then word_from target (strip_left s.rest) else (target, record s { good = false })

-- A text that is no number stores 0, and one that does not fit stores the nearest `int`.
unfoldable pub int_signed : Bool → Bytes → ℤ
int_signed neg s =
    if not (starts_digit s)
    then pos 0
    else if fits_int neg (digits_value 0 s)
    then signed neg (digits_value 0 s)
    else limit neg

unfoldable pub int_from : ℤ → Bytes → ℤ
int_from target [] = target
int_from target (c ∷ cs) = int_signed (is_negative (c ∷ cs)) (after_sign (c ∷ cs))

-- What `>> target` stores in an `int`. None of the programs reads on behind it.
unfoldable pub read_int : Stream → ℤ → ℤ
unfolding int_from int_signed
read_int s target = if s.good then int_from target (strip_left s.rest) else target

-- `std::string s = { 0 };` makes a string of one NUL.
abbrev pub nul : Bytes
nul = 0 ∷ []

-- The four variables of a command line.
pub record Command : Type 0 where
  pub command : Bytes
  pub filename : Bytes
  pub fiction : Bytes
  pub size_fict : ℤ

-- `iss >> command >> filename >> fiction >> size_fict` on the text of `iss`.
unfoldable pub parse_command : Bytes → Command
parse_command text =
    let start : Stream = record { rest = text; good = true } in
    let c = read_word start nul in
    let f = read_word c.1 nul in
    let x = read_word f.1 nul in
    record { command = c.0; filename = f.0; fiction = x.0; size_fict = read_int x.1 (pos 0) }
