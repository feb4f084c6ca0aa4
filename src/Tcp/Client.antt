-- ===== src/Tcp/Client.antt =====
-- hw3/client/main.cpp. Standard input is a text; the operating system is two scripts, the answers
-- to `send` and to `recv`.
pub mod Rounds
use cpp_network_homework.Prelude.{
  ℕ, zero, suc, ◌-◌, Bool, true, false, not, Option, none, some, List, [], ◌∷◌, ◌++◌, leb,
  if◌then◌else◌, length, set, Bytes,
}
use cpp_network_homework.Text.{trim}
use cpp_network_homework.Text.Console.{line_of, after_line, read_host, read_port}
use cpp_network_homework.Send.{Reply, Outcome, returned, waiting, send_request}
use cpp_network_homework.Send
use cpp_network_homework.Udp.Client.{resize}
use cpp_network_homework.Tcp.{Received, received, refused, is_eintr}

-- `recv_answer`: the bytes that it prints, and the answers it leaves, or `none` where it waits.
pub recv_answer : List Received → Bytes → Bytes × Option (List Received)
recv_answer [] printed = (printed, none)
recv_answer (received [] ∷ script) printed = (printed, some script)
recv_answer (received (c ∷ cs) ∷ script) printed = recv_answer script (printed ++ (c ∷ cs))
recv_answer (refused e ∷ script) printed =
    let rest = recv_answer script printed in if is_eintr e then rest else (printed, some script)

abbrev pub max_message_length : ℕ
max_message_length = 1000

-- A long text is cut to the limit, and ends in CR, LF and NUL.
unfoldable pub clip_crlf : Bytes → Bytes
clip_crlf text =
    let cut = resize text max_message_length in
    let cr = set cut (max_message_length - 3) b'\r' in
    let lf = set cr (max_message_length - 2) b'\n' in
    if leb max_message_length (length text) then set lf (max_message_length - 1) 0 else text

-- What is sent and what is printed so far, and what is left of the input and the scripts.
pub record Talk : Type 0 where
  pub input : Bytes
  pub sends : List Reply
  pub recvs : List Received
  pub wire : Bytes
  pub printed : Bytes

-- The loop ends behind `send_request`, or throws in `trim`, or waits in a call, or is still going
-- on after the rounds that were counted.
pub data Ending : Type 0 where
  unsent thrown blocked going_on : Talk → Ending

after_answer : (Talk → Ending) → Talk → Bytes × Option (List Received) → Ending
after_answer next t (printed, none) = blocked (record t { printed = printed })
after_answer next t (printed, some recvs) = next (record t { printed = printed; recvs = recvs })

after_request : (Talk → Ending) → Talk → Send.Outcome → Ending
after_request next t (waiting w) = blocked (record t { wire = t.wire ++ w })
after_request next t (returned ok w later) =
    let u : Talk = record t { wire = t.wire ++ w; sends = later } in
    let answer = after_answer next u (recv_answer t.recvs t.printed) in
    if not ok then unsent u else answer

pub talk : ℕ → Talk → Ending
talk zero t = going_on t
talk (suc rounds) t = elim (trim (line_of t.input)) [
  | none ↦ thrown t
  | some text ↦
      after_request (talk rounds) (record t { input = after_line t.input })
        (send_request (clip_crlf text) t.sends)
]

-- What the system says of an address of the list from `getaddrinfo`: no socket, no connection, or a
-- connection.
pub data Address : Type 0 where
  no_socket no_connection connects : Address

-- `for (auto ai = serv_info; …)`: the first address decides. With none, the loop is passed by.
unfoldable pub connect_first : List Address → Bool
connect_first [] = true
connect_first (no_socket ∷ rest) = false
connect_first (no_connection ∷ rest) = false
connect_first (connects ∷ rest) = true

pub data Exit : Type 0 where
  not_connected never_starts : Exit
  ran : Ending → Exit

abbrev addresses_of : Option (List Address) → List Address
addresses_of none = []
addresses_of (some l) = l

abbrev resolved : Option (List Address) → Bool
resolved none = false
resolved (some l) = true

-- Behind the prompts. `resolve` is `getaddrinfo`, with `none` for a negative answer; the two
-- Booleans say whether `ioctl` and `setsockopt` succeed.
talk_to :
    ℕ
    → Bytes
    → Option (ℕ × Bytes)
    → (Bytes → ℕ → Option (List Address))
    → Bool
    → Bool
    → List Reply
    → List Received
    → Exit
talk_to rounds host none resolve non_blocking no_delay sends recvs = never_starts
talk_to rounds host (some (port, input)) resolve non_blocking no_delay sends recvs =
    let t : Talk = record {
      input = input;
      sends = sends;
      recvs = recvs;
      wire = [];
      printed = [];
    } in
    if not (resolved (resolve host port))
    then not_connected
    else if not (connect_first (addresses_of (resolve host port)))
    then not_connected
    else if not non_blocking
    then not_connected
    else if not no_delay
    then not_connected
    else ran (talk rounds t)

pub main :
    ℕ
    → Bytes
    → (Bytes → ℕ → Option (List Address))
    → Bool
    → Bool
    → List Reply
    → List Received
    → Exit
main rounds input resolve non_blocking no_delay sends recvs =
    let h = read_host (record { rest = input; good = true }) in
    talk_to rounds h.0 (read_port h.1) resolve non_blocking no_delay sends recvs
