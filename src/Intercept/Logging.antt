-- ===== src/Intercept/Logging.antt =====
-- What the interceptor logs while its log is open: all that is written but the last byte of each
-- call. Every call goes on to the function that it replaces, unchanged.
use cpp_network_homework.Prelude.{
  ℕ, ◌≤◌, ◌≡◌, refl, ap, ◌∙◌, inl, inr, true, Option, none, some, List, [], ◌∷◌, ◌++◌, map,
  append-nil, append_assoc, arith, ltb, Bool-cases, length, Bytes,
}
use cpp_network_homework.Intercept.{
  File, Call, write_call, send_call, sendto_call, State, pass, put_chars, front, log_front,
  then_pass, write, send, sendto,
}

abbrev pub open_file : Bytes → File
open_file t = record { is_open = true; text = t }

-- `st` with an open log that holds `t`, and `s` on the terminal.
abbrev logging : State → Bytes → Bytes → State
logging st t s = record st { log_file = some (open_file t); shown = s }

put_chars_open :
    (cs : Bytes) (st : State) (t s : Bytes)
    → put_chars cs (open_file t) (logging st t s) ≡ some (logging st (t ++ cs) (s ++ cs))
unfolding put_chars
put_chars_open [] st t s = simp append-nil
put_chars_open (c ∷ cs) st t s =
    put_chars_open cs st (t ++ (c ∷ [])) (s ++ (c ∷ []))
    ∙ rw (append_assoc t (c ∷ []) cs, append_assoc s (c ∷ []) cs)

front_short : (buf : Bytes) → length buf ≤ 1 → front buf ≡ []
unfolding front
front_short [] h = refl
front_short (c ∷ []) h = refl
front_short (c ∷ d ∷ cs) h = absurd (omega arith)

-- A buffer that may be null has nothing to log.
abbrev pub logged : Option Bytes → Bytes
logged none = []
logged (some buf) = front buf

log_front_open :
    (least : ℕ) (buf : Option Bytes) (st : State) (t s : Bytes)
    → least ≤ 1
    → log_front least buf (some (open_file t)) (logging st t s)
      ≡ some (logging st (t ++ logged buf) (s ++ logged buf))
unfolding log_front
log_front_open least none st t s h = simp append-nil
log_front_open least (some buf) st t s h = elim (Bool-cases (ltb least (length buf))) [
  | inl long ↦ rw long (put_chars_open (front buf) st t s)
  | inr short ↦ rw (short, front_short buf (ground arith)) (simp append-nil)
]

-- The calls that write to a socket or a file.
pub data Output : Type 0 where
  writes : Option ℕ → Option Bytes → Output
  sends : Option ℕ → Option Bytes → ℕ → Output
  sends_to : Option ℕ → Option Bytes → ℕ → Bytes → ℕ → Output

abbrev pub buffer_of : Output → Option Bytes
buffer_of (writes fd buf) = buf
buffer_of (sends fd buf flags) = buf
buffer_of (sends_to fd buf flags dest addrlen) = buf

abbrev pub call_of : Output → Call
call_of (writes fd buf) = write_call fd buf
call_of (sends fd buf flags) = send_call fd buf flags
call_of (sends_to fd buf flags dest addrlen) = sendto_call fd buf flags dest addrlen

abbrev pub output : Output → State → Option State
output (writes fd buf) = write fd buf
output (sends fd buf flags) = send fd buf flags
output (sends_to fd buf flags dest addrlen) = sendto fd buf flags dest addrlen

pub outputs : List Output → State → Option State
outputs [] st = some st
outputs (o ∷ os) st = elim (output o st) [ none ↦ none | some st' ↦ outputs os st' ]

abbrev pub all_logged : List Output → Bytes
all_logged [] = []
all_logged (o ∷ os) = logged (buffer_of o) ++ all_logged os

output_open :
    (o : Output) (st : State) (t s : Bytes)
    → output o (logging st t s)
      ≡ some (pass (call_of o) (logging st (t ++ logged (buffer_of o)) (s ++ logged (buffer_of o))))
unfolding write send sendto
output_open (writes fd buf) st t s =
    ap (then_pass (write_call fd buf)) (log_front_open 1 buf st t s (omega arith))
    ∙ unfold then_pass in refl
output_open (sends fd buf flags) st t s =
    ap (then_pass (send_call fd buf flags)) (log_front_open 0 buf st t s (omega arith))
    ∙ unfold then_pass in refl
output_open (sends_to fd buf flags dest addrlen) st t s =
    ap (then_pass (sendto_call fd buf flags dest addrlen))
      (log_front_open 1 buf st t s (omega arith))
    ∙ unfold then_pass in refl

outputs-logging :
    (os : List Output) (st : State) (t s : Bytes)
    → outputs os (logging st t s)
      ≡ some (record st {
        log_file = some (open_file (t ++ all_logged os));
        shown = s ++ all_logged os;
        passed = st.passed ++ map call_of os;
      })
unfolding outputs
outputs-logging [] st t s = simp append-nil
outputs-logging (o ∷ os) st t s =
    rw (output_open o st t s, outputs)
      (outputs-logging os (pass (call_of o) st) (t ++ logged (buffer_of o))
          (s ++ logged (buffer_of o))
        ∙ simp append_assoc)

-- While the log is open, any calls of `write`, `send` and `sendto` are passed on with all their
-- arguments and in order, the log and the terminal gain every byte of each buffer but its last, in order, and
-- the tracked descriptor stays.
pub outputs_open :
    (os : List Output) (st : State) (t : Bytes)
    → st.log_file ≡ some (open_file t)
    → outputs os st
      ≡ some (record st {
        log_file = some (open_file (t ++ all_logged os));
        shown = st.shown ++ all_logged os;
        passed = st.passed ++ map call_of os;
      })
outputs_open os st t e =
    ap (λ f. outputs os (record st { log_file = f })) e ∙ outputs-logging os st t st.shown
