-- ===== src/Qt/Client/Receive.antt =====
-- What the Qt client shows and stores.
use cpp_network_homework.Prelude.{
  ◌≡◌, refl, sym, ap, ◌∙◌, inl, inr, Bool, false, List, [], ◌∷◌, ◌++◌, append-nil, append_assoc,
  if◌then◌else◌, Bool-cases, All, Bytes, codes, equal, concat,
}
use cpp_network_homework.Qt.Stream.{Text, IsQt}
use cpp_network_homework.Qt.Frame.{frames, IsShort}
use cpp_network_homework.Qt.Reader.{feed_open, acts}
use cpp_network_homework.Qt.Reader.Rounds.{IsMessage}
use cpp_network_homework.Qt.Reader.Reassembly.{feed_open-frames, OnlyLast, OnlyLast-StaysOpen}
use cpp_network_homework.Qt.Client.{Local, Client, show, do_exit, react}

-- A message that fits its size field and asks for no file.
abbrev pub IsLineMessage : Text → Type 0
IsLineMessage m = IsShort m × (equal m (codes "get") ≡ false)

-- The lines that the window gains.
abbrev pub lines_of : List Text → List Text
lines_of [] = []
lines_of (m ∷ ms) =
    (if equal m (codes "exit") then m ∷ codes "Breaking" ∷ [] else m ∷ []) ++ lines_of ms

module _ (l : Local) where
  on_line : Text → Client → Client
  on_line m c = do_exit l m (show m c)

  react-on_line :
      (m : Text)
      → equal m (codes "get") ≡ false
      → (b : Bytes) (c : Client) → react l m b c ≡ (b, on_line m c)
  unfolding react on_line
  react-on_line m e b c = rw e refl

  shown-on_line :
      (m : Text) (c : Client)
      → (on_line m c).shown
        ≡ c.shown ++ (if equal m (codes "exit") then m ∷ codes "Breaking" ∷ [] else m ∷ [])
  unfolding on_line do_exit
  shown-on_line m c = elim (Bool-cases (equal m (codes "exit"))) [
    | inl t ↦ rw t (append_assoc c.shown (m ∷ []) (codes "Breaking" ∷ []))
    | inr f ↦ rw f refl
  ]

-- The word that the client closes its window at.
abbrev pub leaves_client : Text → Bool
leaves_client m = equal m (codes "exit")

on_line-closed :
    (l : Local) (m : Text) (c : Client)
    → leaves_client m ≡ false
    → (on_line l m c).closed ≡ c.closed
unfolding on_line do_exit
on_line-closed l m c h = rw h refl

module _ (l : Local) (w : IsQt l.stream) where
  lines_IsMessage :
      (ms : List Text) → All IsLineMessage ms → All (IsMessage (react l) (on_line l)) ms
  lines_IsMessage [] h = tt
  lines_IsMessage (m ∷ ms) ((short, no_get), t) =
      ((short, react-on_line l m no_get), lines_IsMessage ms t)

  shown-acts :
      (ms : List Text) (c : Client) → (acts (on_line l) ms c).shown ≡ c.shown ++ lines_of ms
  shown-acts [] c = sym (append-nil c.shown)
  shown-acts (m ∷ ms) c =
      shown-acts ms (on_line l m c)
      ∙ ap (λ x. x ++ lines_of ms) (shown-on_line l m c)
      ∙ append_assoc c.shown _ (lines_of ms)

-- The messages of a server that fit their size fields and are not `get`, cut into pieces in any
-- way: the client shows each once, in order, and `Breaking` behind the word `exit`, which only the
-- last may be; nothing is left unread. `QDataStream` reads back what it writes.
pub slot_ready_read-lines_open :
    (l : Local) (w : IsQt l.stream) (ms : List Text) (cs : List Bytes) (c : Client)
    → All IsLineMessage ms
    → OnlyLast leaves_client ms
    → c.closed ≡ false
    → concat cs ≡ frames l.stream ms
    → let r =
        feed_open l.stream
          (react l)
          (λ x. x.closed)
          (record { next_block_size = 0; arrived = []; state = c })
          cs in
      (r.state.shown ≡ c.shown ++ lines_of ms) × (r.arrived ≡ []) × (r.next_block_size ≡ 0)
slot_ready_read-lines_open l w ms cs c h o open_still e =
    let whole =
      feed_open-frames l.stream w (react l) (on_line l) (λ x. x.closed) ms cs c
        (lines_IsMessage l w ms h)
        (OnlyLast-StaysOpen l.stream w (react l) (on_line l) (λ x. x.closed) leaves_client ms c
          (on_line-closed l) o open_still)
        e in
    (
      ap (λ r. r.state.shown) whole ∙ shown-acts l w ms c,
      ap (λ r. r.arrived) whole,
      ap (λ r. r.next_block_size) whole,
    )
