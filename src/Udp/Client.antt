-- ===== src/Udp/Client.antt =====
-- hw1/udp_client/main.cpp. Standard input is a text, and the operating system a script: what each
-- call of `recvfrom` gives, in order (`none` is -1).
pub mod Chat
use cpp_network_homework.Prelude.{
  ℕ, ◌-◌, Bool, true, false, not, ◌&&◌, Option, none, some, List, [], ◌∷◌, ◌++◌, ltb, leb,
  if◌then◌else◌, length, take, replicate, set, Bytes, codes, equal,
}
use cpp_network_homework.Text.{trim}
use cpp_network_homework.Text.Console.{line_of, after_line, read_host, read_port}

abbrev pub max_message_length : ℕ
max_message_length = 1000

-- `std::string::resize`.
unfoldable pub resize : Bytes → ℕ → Bytes
resize text n = take n text ++ replicate (n - length text) 0

-- A long text is cut to the limit, and its last character becomes NUL.
unfoldable pub clip : Bytes → Bytes
clip text =
    if leb max_message_length (length text)
    then set (resize text max_message_length) (max_message_length - 1) 0
    else text

-- The loop leaves on the answer `exit`, or by an exception, or waits for an answer. It keeps the
-- texts that were sent.
pub data Outcome : Type 0 where
  left : List Bytes → Outcome
  terminated : List Bytes → Outcome
  waiting : List Bytes → Outcome

unfoldable pub is_exit_answer : Option Bytes → Bool
is_exit_answer none = false
is_exit_answer (some answer) = ltb 0 (length answer) && equal answer (codes "exit")

pub chat : Bytes → List Bytes → List (Option Bytes) → Outcome
chat input sent [] = elim (trim (line_of input)) [
  | none ↦ terminated sent
  | some text ↦ waiting (sent ++ (clip text ∷ []))
]
chat input sent (reply ∷ script) = elim (trim (line_of input)) [
  | none ↦ terminated sent
  | some text ↦
      let next = chat (after_line input) (sent ++ (clip text ∷ [])) script in
      if is_exit_answer reply then left (sent ++ (clip text ∷ [])) else next
]

-- `main`: the two prompts, the socket, its address, and the loop. `hangs` is the end of the input
-- at the prompt for the port.
pub data Exit : Type 0 where
  failure hangs : Exit
  ran : Bytes → ℕ → Outcome → Exit

connect_to : Bytes → Option (ℕ × Bytes) → Bool → (Bytes → ℕ → Bool) → List (Option Bytes) → Exit
connect_to host none opened connects script = hangs
connect_to host (some (port, input)) opened connects script =
    if not opened
    then failure
    else if not (connects host port)
    then failure
    else ran host port (chat input [] script)

-- The parameters say whether the socket opens and which addresses `connect` takes.
pub main : Bytes → Bool → (Bytes → ℕ → Bool) → List (Option Bytes) → Exit
main input opened connects script =
    let h = read_host (record { rest = input; good = true }) in
    connect_to h.0 (read_port h.1) opened connects script
