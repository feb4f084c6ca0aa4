-- ===== src/FileServer/Transceiver/Rounds.antt =====
-- One round of the loop of `send_file`, and what a run of it has sent.
use native.Mathlib.Decide.{dec_le}
use cpp_network_homework.Prelude.{
  ℕ, zero, suc, ◌+◌, ◌-◌, ◌*◌, ◌≤◌, ◌<◌, min, ◌≡◌, refl, sym, ap, ap₂, subst, ◌∙◌, true, false,
  ◌&&◌, List, [], ◌∷◌, ◌++◌, append-nil, arith, ltb, ◌==◌, if◌then◌else◌, length, take, drop, All,
  length-append, take_all, take-add, length-take, length-drop, take-append, take-take,
  take-append_add, Bytes,
}
use cpp_network_homework.Send.{Reply, returned, need_to_repeat, send_buffer}
use cpp_network_homework.Send.Deliver.{Serves, send_buffer_total}
use cpp_network_homework.FileServer.Transceiver.{
  Input, read, portion, remaining, after_send, file_loop,
}

-- Groups of replies, each of which serves one buffer, and then the rest of the script.
abbrev pub joined : List (List Reply) → List Reply → List Reply
joined [] more = more
joined (p ∷ ps) more = p ++ joined ps more

abbrev pub ServesAll : ℕ → List (List Reply) → Type 0
ServesAll size = All (Serves need_to_repeat size)

-- The rounds of the loop for `count` bytes to send with `left` bytes in the file.
unfoldable pub rounds : ℕ → ℕ → ℕ → ℕ → ℕ
rounds size zero count left = 0
rounds size (suc fuel) count left =
    let more = suc (rounds size fuel (count - size) (left - size)) in
    if count == 0 then 0 else if ltb left (min count size) then 1 else more

pub portion-min : (size count : ℕ) → portion size count ≡ min count size
unfolding portion
portion-min size count = ground arith

pub remaining-sub : (size count : ℕ) → remaining size count ≡ count - size
unfolding remaining
remaining-sub size count = ground arith

pub length-read :
    (n : ℕ) (input : Input) (buffer : Bytes)
    → n ≤ length buffer
    → length (read n input buffer).1 ≡ length buffer
unfolding read
length-read n input buffer h = omega (
  arith,
  length-append (take n input.rest) (drop (length (take n input.rest)) buffer),
  length-drop (length (take n input.rest)) buffer,
  length-take n input.rest,
)

-- The bytes that were read stand first in the buffer.
pub take-read :
    (n k : ℕ) (input : Input) (buffer : Bytes)
    → k ≤ n
    → k ≤ length input.rest
    → take k (read n input buffer).1 ≡ take k input.rest
unfolding read
take-read n k input buffer h l =
    take-append k (take n input.rest) _ (omega (arith, length-take n input.rest))
    ∙ take-take k n input.rest h

pub file_loop_ends :
    (size fuel : ℕ) (input : Input) (count : ℕ) (buffer wire : Bytes) (script : List Reply)
    → (input.good && ltb 0 count) ≡ false
    → file_loop size fuel input count buffer wire script ≡ returned true wire script
unfolding file_loop
file_loop_ends size zero input count buffer wire script h = refl
file_loop_ends size (suc fuel) input count buffer wire script h = rw h

-- One round whose buffer is served.
pub file_loop_round :
    (size fuel : ℕ) (input : Input) (count : ℕ) (buffer wire : Bytes) (p more : List Reply)
    → input.good ≡ true
    → 0 < count
    → length buffer ≡ size
    → Serves need_to_repeat size p
    → let r = read (min count size) input buffer in
      file_loop size (suc fuel) input count buffer wire (p ++ more)
      ≡ file_loop size fuel r.0 (count - size) r.1 (wire ++ r.1) more
unfolding file_loop after_send
file_loop_round size fuel input count buffer wire p more g h l s =
    let goes_on : (input.good && ltb 0 count) ≡ true = ground arith in
    let served : send_buffer (read (min count size) input buffer).1 (p ++ more)
        ≡ returned true (read (min count size) input buffer).1 more =
      send_buffer_total (read (min count size) input buffer).1 more (
        subst (λ n. Serves need_to_repeat n p)
          (sym (length-read (min count size) input buffer (omega arith) ∙ l)) s) in
    rw (goes_on, portion-min, remaining-sub, served) refl

-- A round that read all that it asked for, and then what the later rounds send.
pub content_full :
    (size count n : ℕ) (rest r out : Bytes)
    → length r ≡ size
    → n ≡ min count size
    → n ≤ length rest
    → take n r ≡ take n rest
    → take (min (count - size) (length (drop n rest))) out ≡ take (count - size) (drop n rest)
    → take (min count (length rest)) (r ++ out) ≡ take count rest
content_full size count n rest r out l e h p q = elim (dec_le count size) [
  | yes small ↦
      let m : min count (length rest) ≡ count = omega arith in
      let n' : n ≡ count = omega arith in
      rw m (take-append count r out (omega arith) ∙ subst (λ k. take k r ≡ take k rest) n' p)
  | no big ↦
      let n' : n ≡ size = omega arith in
      let m : min count (length rest) ≡ length r + min (count - size) (length (drop n rest)) =
        omega (arith, length-drop n rest) in
      let c : n + (count - size) ≡ count = omega arith in
      let whole : r ≡ take n rest = sym (take_all n r (omega arith)) ∙ p in
      rw m (
        take-append_add r out (min (count - size) (length (drop n rest)))
        ∙ ap₂ ◌++◌ whole q
        ∙ sym (take-add n (count - size) rest)
        ∙ ap (λ k. take k rest) c)
]

-- What the loop has sent from a state on.
pub record Sends (size fuel : ℕ) (input : Input) (count : ℕ) (buffer wire : Bytes)
    (ps : List (List Reply)) (more : List Reply) : Type 0 where
  pub out : Bytes
  pub returns :
      file_loop size fuel input count buffer wire (joined ps more)
      ≡ returned true (wire ++ out) more
  pub content : take (min count (length input.rest)) out ≡ take count input.rest
  pub blocks : length out ≡ size * length ps

pub Sends-none :
    (size fuel : ℕ) (input : Input) (count : ℕ) (buffer wire : Bytes) (ps : List (List Reply))
    (more : List Reply)
    → count ≡ 0
    → length ps ≡ 0
    → Sends size fuel input count buffer wire ps more
Sends-none size fuel input count buffer wire (p ∷ ps) more z l = absurd (omega arith)
Sends-none size fuel input count buffer wire [] more z l = record {
  out = [];
  returns =
      file_loop_ends size fuel input count buffer wire more (ground arith)
      ∙ ap (λ w. returned true w more) (sym (append-nil wire));
  content = let e : min count (length input.rest) ≡ 0 = omega arith in rw (e, z);
  blocks = omega arith;
}

pub nil_of_length : (ps : List (List Reply)) → length ps ≡ 0 → ps ≡ []
nil_of_length [] e = refl
nil_of_length (p ∷ ps) e = absurd (omega arith)
