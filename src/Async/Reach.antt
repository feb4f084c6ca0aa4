-- ===== src/Async/Reach.antt =====
-- What holds of every session in every state that the asynchronous server comes to.
use cpp_network_homework.Prelude.{
  ◌≡◌, refl, sym, ap, ◌∙◌, inl, inr, Bool, true, false, Option, none, some, List, [], ◌∷◌, ◌++◌,
  append-nil, Bool-cases, All, Bytes, codes, equal,
}
use cpp_network_homework.Text.{c_string}
use cpp_network_homework.Text.Stream.{parse_command}
use cpp_network_homework.Async.{
  Phase, reading, writing, gone, Session, Server, start, do_command, on_read, on_written, on_accept,
  Step, accept_done, read_done, write_done, Reachable, started, steps,
}

-- What a session still has to send back, or will never send.
abbrev pub unsent : Phase → Bytes
unsent reading = []
unsent (writing bytes) = bytes
unsent (gone bytes) = bytes

abbrev pub IsEcho : Session → Type 0
IsEcho x = x.sent ++ unsent x.phase ≡ x.received

All-replace :
    (xs ys : List Session) (x y : Session)
    → (IsEcho x → IsEcho y)
    → All IsEcho (xs ++ (x ∷ ys))
    → All IsEcho (xs ++ (y ∷ ys))
All-replace [] ys x y f (h, t) = (f h, t)
All-replace (z ∷ xs) ys x y f (h, t) = (h, All-replace xs ys x y f t)

All-start : (xs : List Session) → All IsEcho xs → All IsEcho (xs ++ (start ∷ []))
All-start [] h = (refl, tt)
All-start (x ∷ xs) (h, t) = (h, All-start xs t)

do_command-IsEcho :
    (bytes : Bytes) (x : Session) → x.sent ++ bytes ≡ x.received → IsEcho (do_command bytes x).0
unfolding do_command
do_command-IsEcho bytes x h =
    elim (Bool-cases (equal (parse_command (c_string bytes)).command (codes "exit"))) [
      | inl e ↦ rw e h
      | inr e ↦ rw e h
    ]

on_read-IsEcho :
    (r : Option Bytes) (x : Session) → x.phase ≡ reading → IsEcho x → IsEcho (on_read r x).0
unfolding on_read
on_read-IsEcho none x p h = sym (ap (λ t. x.sent ++ unsent t) p) ∙ h
on_read-IsEcho (some bytes) x p h =
    let all : x.sent ≡ x.received =
      sym (append-nil x.sent) ∙ sym (ap (λ t. x.sent ++ unsent t) p) ∙ h in
    do_command-IsEcho bytes (record x { received = x.received ++ bytes }) (ap (λ t. t ++ bytes) all)

on_written-IsEcho :
    (bytes : Bytes) (ok : Bool) (x : Session)
    → x.phase ≡ writing bytes
    → IsEcho x
    → IsEcho (on_written bytes ok x)
unfolding on_written
on_written-IsEcho bytes true x p h =
    append-nil (x.sent ++ bytes) ∙ sym (ap (λ t. x.sent ++ unsent t) p) ∙ h
on_written-IsEcho bytes false x p h = sym (ap (λ t. x.sent ++ unsent t) p) ∙ h

Step-IsEcho : {s t : Server} → Step s t → All IsEcho s.sessions → All IsEcho t.sessions
unfolding on_accept
Step-IsEcho (accept_done xs true) h = All-start xs h
Step-IsEcho (accept_done xs false) h = h
Step-IsEcho (read_done xs ys x r fits p) h =
    All-replace xs ys x (on_read r x).0 (on_read-IsEcho r x p) h
Step-IsEcho (write_done xs ys x bytes ok p) h =
    All-replace xs ys x (on_written bytes ok x) (on_written-IsEcho bytes ok x p) h

-- In every state that the server comes to, whatever the order of the completions, and for every
-- session: what it has sent, with what it is writing or did not write before it ended, is what it
-- has received; so a session that waits to read has sent back everything.
pub Reachable-IsEcho : {s : Server} → Reachable s → All IsEcho s.sessions
Reachable-IsEcho started = tt
Reachable-IsEcho (steps r st) = Step-IsEcho st (Reachable-IsEcho r)
