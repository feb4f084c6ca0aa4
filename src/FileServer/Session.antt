-- ===== src/FileServer/Session.antt =====
-- `main` of hw4/tcp_server/main.cpp: the loop over the one client that is accepted.
pub mod Get
pub mod Visit
use cpp_network_homework.Prelude.{
  ℕ, Bool, true, false, not, ◌&&◌, Option, none, some, List, [], ◌∷◌, ◌++◌, ltb, ◌==◌,
  if◌then◌else◌, length, take, Bytes, codes, equal,
}
use cpp_network_homework.Text.Number.{Stoi, value, invalid_argument, out_of_range, stoi, to_size_t}
use cpp_network_homework.Text.{c_string}
use cpp_network_homework.Text.Stream.{Command, parse_command}
use cpp_network_homework.Send.{Reply, accepted, failed}
use cpp_network_homework.FileServer.Transceiver.{Transceiver}
use cpp_network_homework.FileServer.Request.{FileSystem, Processed, processed, blocked, process}

-- `sizeof(buffer) - 1`, the most that `recv` gives.
abbrev pub recv_size : ℕ
recv_size = 255

-- What a round meets: the bytes that wait at its `recv`, none where that returns 0 or -1; the reply
-- to the echo's `send`; and the replies to those of the file. `recv` takes `recv_size` bytes at most:
-- any others still wait, and are the first of those that the next round meets.
pub record Turn : Type 0 where
  pub received : Bytes
  pub echo : Reply
  pub replies : List Reply

-- The echo is one call of `send`, whose result is not looked at.
unfoldable pub echoed : Bytes → Reply → Bytes
echoed text (accepted n) = take n text
echoed text (failed e) = []

unfoldable pub fict_of : Bytes → ℕ
fict_of fiction =
    if equal fiction (codes "beans") then 1 else if equal fiction (codes "size") then 2 else 0

-- A round ends with whether `run` is still true, and with what it has sent, or it waits in `send`.
pub data Round : Type 0 where
  ended : Bool → Bytes → Round
  stuck : Bytes → Round

round_of : Bool → Bytes → Processed → Round
round_of run wire (processed result out later) = ended run (wire ++ out)
round_of run wire (blocked out) = stuck (wire ++ out)

transceiver_of : Command → Transceiver
transceiver_of c = record { fict = fict_of c.fiction; size_fict = to_size_t c.size_fict }

pub analyse : FileSystem → Bytes → Command → Turn → Round
analyse fs text c t =
    if equal c.command (codes "get") && ltb 4 (length text)
    then round_of (not (equal c.command (codes "exit"))) (echoed text t.echo)
        (process fs (transceiver_of c) c.filename t.replies)
    else ended (not (equal c.command (codes "exit"))) (echoed text t.echo)

-- The text is what `recv` takes of what waits, up to its first NUL.
pub handle : FileSystem → Turn → Round
handle fs t =
    let got = take recv_size t.received in
    if ltb 0 (length got)
    then analyse fs (c_string got) (parse_command (c_string got)) t
    else ended true []

-- `while (run)`.
pub data Served : Type 0 where
  stopped : Bytes → List Turn → Served
  running : Bytes → Served

pub serve : FileSystem → Bytes → List Turn → Served
serve fs wire [] = running wire
serve fs wire (t ∷ ts) = elim (handle fs t) [
  | ended run out ↦
      let next = serve fs (wire ++ out) ts in if run then next else stopped (wire ++ out) ts
  | stuck out ↦ running (wire ++ out)
]

-- How `main` ends: EXIT_FAILURE, an exception that nothing catches, or the loop.
pub data Exit : Type 0 where
  failure uncaught : Exit
  ran : Served → Exit

-- What the operating system answers: the descriptors are `none` for -1.
pub record Answers : Type 0 where
  pub socket : Option ℕ
  pub setsockopt : Bool
  pub bind : Bool
  pub accept : Option ℕ

-- `if (!sock)` holds for descriptor 0 alone.
is_zero : Option ℕ → Bool
is_zero none = false
is_zero (some d) = d == 0

accepted_on : FileSystem → Option ℕ → List Turn → Exit
accepted_on fs none turns = uncaught
accepted_on fs (some d) turns = ran (serve fs [] turns)

listen_on : FileSystem → Answers → Stoi → List Turn → Exit
listen_on fs a invalid_argument turns = uncaught
listen_on fs a out_of_range turns = uncaught
listen_on fs a (value port) turns =
    if is_zero a.socket
    then failure
    else if not a.setsockopt
    then failure
    else if not a.bind
    then failure
    else accepted_on fs a.accept turns

pub main : FileSystem → List Bytes → Answers → List Turn → Exit
main fs (program ∷ port ∷ []) a turns = listen_on fs a (stoi port) turns
main fs _ a turns = failure
