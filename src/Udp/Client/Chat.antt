-- ===== src/Udp/Client/Chat.antt =====
-- What the datagram client sends, and when it leaves.
use cpp_network_homework.Prelude.{
  ℕ, ◌-◌, ◌≤◌, ◌≡◌, refl, ap, ◌∙◌, inl, inr, false, Option, some, List, [], ◌∷◌, ◌++◌, append-nil,
  append_assoc, arith, leb, if◌then◌else◌, leb→le, Bool-cases, length, take, replicate, set, All,
  length-append, length-take, length-replicate, length-set, take-set, take-append, take-take, Bytes,
  codes, equal,
}
use cpp_network_homework.Text.Line.{stripped, line_of-append, IsLine, trim-line_of}
use cpp_network_homework.Udp.Client.{max_message_length, resize, clip, left, is_exit_answer, chat}

pub length-resize : (text : Bytes) (n : ℕ) → length (resize text n) ≡ n
unfolding resize
length-resize text n = omega (
  arith,
  length-append (take n text) (replicate (n - length text) 0),
  length-take n text,
  length-replicate {A = ℕ} (n - length text) 0,
)

-- The first `n` bytes of a text of more than `n` bytes, cut to `n + 1` with a write at `n`.
take-set-resize :
    (text : Bytes) (n m v : ℕ)
    → n ≤ m
    → m ≤ length text
    → take n (set (resize text m) n v) ≡ take n text
unfolding resize
take-set-resize text n m v h l =
    take-set n n (take m text ++ replicate (m - length text) 0) v (omega arith)
    ∙ take-append n (take m text) _ (omega (arith, length-take m text))
    ∙ take-take n m text h

-- A cut text is at most 1000 bytes long, and its first 999 bytes, all that the server's buffer
-- holds, are those of the text.
pub clip_bounds :
    (text : Bytes)
    → (length (clip text) ≤ max_message_length) × (take 999 (clip text) ≡ take 999 text)
unfolding clip
clip_bounds text = elim (Bool-cases (leb max_message_length (length text))) [
  | inl long ↦ rw long (
    omega (arith, length-set {A = ℕ} (resize text 1000) 999 0, length-resize text 1000),
    take-set-resize text 999 1000 0 (omega arith) (leb→le 1000 (length text) long),
  )
  | inr short ↦ rw short (ground arith, refl)
]

-- The command that `chat` sends for a line of standard input.
abbrev pub sent_for : Bytes → Bytes
sent_for line = clip (stripped line)

-- A line and the answer to it, on which the loop goes on.
abbrev pub IsRound : Bytes × Option Bytes → Type 0
IsRound (l, a) = IsLine l × (is_exit_answer a ≡ false)

-- The lines, each with its newline, and then the rest of the input.
abbrev pub typed : List (Bytes × Option Bytes) → Bytes → Bytes
typed [] rest = rest
typed ((l, a) ∷ rounds) rest = l ++ (b'\n' ∷ typed rounds rest)

abbrev pub answers : List (Bytes × Option Bytes) → List (Option Bytes) → List (Option Bytes)
answers [] script = script
answers ((l, a) ∷ rounds) script = a ∷ answers rounds script

abbrev pub commands : List (Bytes × Option Bytes) → List Bytes
commands [] = []
commands ((l, a) ∷ rounds) = sent_for l ∷ commands rounds

chat_step :
    (l r : Bytes) (a : Option Bytes) (sent : List Bytes) (script : List (Option Bytes))
    → IsLine l
    → chat (l ++ (b'\n' ∷ r)) sent (a ∷ script) ≡ (
        if is_exit_answer a
        then left (sent ++ (sent_for l ∷ []))
        else chat r (sent ++ (sent_for l ∷ [])) script)
unfolding chat
chat_step l r a sent script h = rw (trim-line_of l r h, chat) (rw (line_of-append l r h.0).1)

chat_rounds :
    (rounds : List (Bytes × Option Bytes)) (input : Bytes) (sent : List Bytes)
    (script : List (Option Bytes))
    → All IsRound rounds
    → chat (typed rounds input) sent (answers rounds script)
      ≡ chat input (sent ++ commands rounds) script
chat_rounds [] input sent script h = rw append-nil
chat_rounds ((l, a) ∷ rounds) input sent script ((line, on), t) =
    chat_step l (typed rounds input) a sent (answers rounds script) line
    ∙ rw on (
        chat_rounds rounds input (sent ++ (sent_for l ∷ [])) script t
        ∙ ap (λ x. chat input x script) (append_assoc sent (sent_for l ∷ []) (commands rounds)))

-- While no answer is `exit`, the client sends each line of its input, in order, stripped of white
-- space and cut to the limit; at the answer `exit` it leaves, and sends no further line.
pub chat_leaves :
    (rounds : List (Bytes × Option Bytes)) (l rest : Bytes) (script : List (Option Bytes))
    → All IsRound rounds
    → IsLine l
    → chat (typed rounds (l ++ (b'\n' ∷ rest))) [] (answers rounds (some (codes "exit") ∷ script))
      ≡ left (commands rounds ++ (sent_for l ∷ []))
chat_leaves rounds l rest script h line =
    chat_rounds rounds (l ++ (b'\n' ∷ rest)) [] (some (codes "exit") ∷ script) h
    ∙ chat_step l rest (some (codes "exit")) (commands rounds) script line
    ∙ unfold is_exit_answer equal in refl
