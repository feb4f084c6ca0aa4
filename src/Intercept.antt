-- ===== src/Intercept.antt =====
-- hw2/linux_call_intercepter/call_intercepter.cpp: the replacements of `close`, `write`, `socket`,
-- `send`, `sendto` and `sendmsg`. The functions that they replace are the environment: each call
-- that is passed on to them is kept, and their answers are arguments where the code uses them. The
-- fixed texts that are printed are left out. `none` as a result is undefined behaviour.
pub mod Logging
pub mod Dangling
use cpp_network_homework.Prelude.{
  ℕ, ◌+◌, ◌-◌, ◌%◌, Bool, true, false, Option, none, some, List, [], ◌∷◌, ◌++◌, ltb, ◌==◌,
  if◌then◌else◌, length, Bytes, size_mod,
}

-- A `FILE`: one that is closed must not be used again.
pub record File : Type 0 where
  pub is_open : Bool
  pub text : Bytes

-- The calls that reach the functions replaced. A descriptor is an `int`, and `none` stands for -1.
-- A buffer is `none` where the pointer is null. Behind it stand the flags, and for `sendto` the
-- address and `addrlen`.
pub data Call : Type 0 where
  close_call : Option ℕ → Call
  write_call : Option ℕ → Option Bytes → Call
  send_call : Option ℕ → Option Bytes → ℕ → Call
  sendto_call : Option ℕ → Option Bytes → ℕ → Bytes → ℕ → Call
  sendmsg_call : Option ℕ → List (Option Bytes × ℕ) → ℕ → Call
  socket_call : ℕ → ℕ → ℕ → Call

-- The static variables, with what has been passed on and what `putchar` has shown. `log_file` is
-- the object that the pointer leads to, `none` if it is null.
pub record State : Type 0 where
  pub socket_fd : Option ℕ
  pub log_file : Option File
  pub passed : List Call
  pub shown : Bytes

-- Before the first call.
abbrev pub start : State
start = record { socket_fd = none; log_file = none; passed = []; shown = [] }

unfoldable pub same_fd : Option ℕ → Option ℕ → Bool
same_fd none none = true
same_fd (some a) (some b) = a == b
same_fd none (some b) = false
same_fd (some a) none = false

abbrev pub pass : Call → State → State
pass c st = record st { passed = st.passed ++ (c ∷ []) }

-- `fclose` where the pointer is not null; a file that is closed already must not be closed.
unfoldable pub close_log : State → Option File → Option State
close_log st none = some st
close_log st (some f) =
    if f.is_open
    then some (record st { log_file = some (record { is_open = false; text = f.text }) })
    else none

-- The pointer `log_file` keeps its value.
close_tracked : Option ℕ → Option State → Option State
close_tracked fd none = none
close_tracked fd (some st) = some (pass (close_call fd) st)

unfoldable pub close : Option ℕ → State → Option State
unfolding same_fd close_log close_tracked
close fd st =
    if same_fd fd st.socket_fd
    then close_tracked fd (close_log (record st { socket_fd = none }) st.log_file)
    else some (pass (close_call fd) st)

-- `fprintf` and `putchar` of one character after another.
unfoldable pub put_chars : Bytes → File → State → Option State
put_chars [] f st = some st
put_chars (c ∷ cs) f st =
    let next : File = record { is_open = true; text = f.text ++ (c ∷ []) } in
    let more =
      put_chars cs next (record st { log_file = some next; shown = st.shown ++ (c ∷ []) }) in
    if f.is_open then more else none

-- All characters but the last.
unfoldable pub front : Bytes → Bytes
front [] = []
front (c ∷ []) = []
front (c ∷ d ∷ cs) = c ∷ front (d ∷ cs)

-- The loop over `count - 1` characters, under the test that the three functions make: the buffer
-- is not null, it has more than `least` bytes, and the log's pointer is not null.
log_front : ℕ → Option Bytes → Option File → State → Option State
log_front least none f st = some st
log_front least (some buf) none st = some st
log_front least (some buf) (some f) st =
    if ltb least (length buf) then put_chars (front buf) f st else some st

then_pass : Call → Option State → Option State
then_pass c none = none
then_pass c (some st) = some (pass c st)

pub write : Option ℕ → Option Bytes → State → Option State
write fd buf st = then_pass (write_call fd buf) (log_front 1 buf st.log_file st)

pub send : Option ℕ → Option Bytes → ℕ → State → Option State
send fd buf flags st = then_pass (send_call fd buf flags) (log_front 0 buf st.log_file st)

pub sendto : Option ℕ → Option Bytes → ℕ → Bytes → ℕ → State → Option State
sendto fd buf flags dest addrlen st =
    then_pass (sendto_call fd buf flags dest addrlen) (log_front 1 buf st.log_file st)

-- With the answers of `socket` and of `fopen`.
pub socket : ℕ → ℕ → ℕ → Option ℕ → Bool → State → State
socket domain type protocol answer opens st =
    let st' = pass (socket_call domain type protocol) st in
    if same_fd none st.socket_fd
    then record st' {
      socket_fd = answer;
      log_file = if opens then some (record { is_open = true; text = [] }) else none;
    }
    else st'

-- An element of `msg_iov`: the bytes that its pointer leads to, and `iov_len`.
abbrev pub Iov : Type 0
Iov = Option Bytes × ℕ

put_char : ℕ → State → Option File → Option State
put_char c st none = none
put_char c st (some f) = put_chars (c ∷ []) f st

-- The inner loop of `sendmsg`. Its `i` hides the outer one, so that round `i` reads the length of
-- element `i` of the array: `later` is the array from there on. Behind the array, and behind the
-- buffer, a read is undefined. The subtraction is one of `size_t`.
msg_chars : List Iov → ℕ → Bytes → State → Option State
msg_chars [] i chars st = none
msg_chars ((base, len) ∷ later) i [] st =
    if ltb i ((len + size_mod - 1) % size_mod) then none else some st
msg_chars ((base, len) ∷ later) i (c ∷ chars) st =
    let more : Option State = elim (put_char c st st.log_file) [
      | none ↦ none
      | some st' ↦ msg_chars later (i + 1) chars st'
    ] in
    if ltb i ((len + size_mod - 1) % size_mod) then more else some st

-- One element, under its test.
msg_element : List Iov → Iov → State → Option State
msg_element all (none, len) st = some st
msg_element all (some buf, len) st = elim (st.log_file) [
  | none ↦ some st
  | some f ↦ if ltb 1 len then msg_chars all 0 buf st else some st
]

msg_loop : List Iov → List Iov → State → Option State
msg_loop all [] st = some st
msg_loop all (v ∷ vs) st = elim (msg_element all v st) [
  | none ↦ none
  | some st' ↦ msg_loop all vs st'
]

pub sendmsg : Option ℕ → List Iov → ℕ → State → Option State
sendmsg fd iov flags st = then_pass (sendmsg_call fd iov flags) (msg_loop iov iov st)
