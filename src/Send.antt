-- ===== src/Send.antt =====
-- The loops round `send`: `send_request` of hw3/client/main.cpp, `send_message` of
-- hw3/server/main.cpp, and `need_to_repeat` and `Transceiver::send_buffer` of
-- hw4/tcp_server/main.cpp. The operating system is a script: the replies that it gives to the
-- calls of `send`, in order. `wire` is what the peer is sent.
pub mod Deliver
pub mod Retry
use cpp_network_homework.Prelude.{
  ℕ, ◌+◌, Bool, true, false, List, [], ◌∷◌, ◌++◌, leb, ◌==◌, if◌then◌else◌, length, take, drop,
  Bytes,
}

-- The values of `errno` that the loops tell apart.
pub data Errno : Type 0 where
  eintr eagain : Errno
  other : ℕ → Errno

-- What one call of `send` returns: the bytes taken, or -1 with `errno`.
pub data Reply : Type 0 where
  accepted : ℕ → Reply
  failed : Errno → Reply

-- A loop returns with the replies it has not used, or waits in a call with none left.
pub data Outcome : Type 0 where
  returned : Bool → Bytes → List Reply → Outcome
  waiting : Bytes → Outcome

-- The bytes that go out when `n` of those from `pos` on are taken.
abbrev pub chunk : Bytes → ℕ → ℕ → Bytes
chunk message pos n = take n (drop pos message)

-- After an error the client's loop goes round again: on `EINTR` by `continue`, else by the end of
-- its body.
request_loop : Bytes → ℕ → Bytes → List Reply → Outcome
request_loop message pos wire [] = waiting wire
request_loop message pos wire (failed e ∷ script) = request_loop message pos wire script
request_loop message pos wire (accepted n ∷ script) =
    let rest = request_loop message (pos + n) (wire ++ chunk message pos n) script in
    if n == 0
    then returned true wire script
    else if leb (length message) (pos + n)
    then returned true (wire ++ chunk message pos n) script
    else rest

unfoldable pub send_request : Bytes → List Reply → Outcome
unfolding request_loop
send_request request script = request_loop request 0 [] script

message_loop : Bytes → ℕ → Bytes → List Reply → Outcome
message_loop message pos wire [] = waiting wire
message_loop message pos wire (failed e ∷ script) = message_loop message pos wire script
message_loop message pos wire (accepted n ∷ script) =
    let rest = message_loop message (pos + n) (wire ++ chunk message pos n) script in
    if n == 0
    then returned true wire script
    else if leb (length message) (pos + n)
    then returned true (wire ++ chunk message pos n) script
    else rest

-- The server's copy of `send_request`.
unfoldable pub send_message : Bytes → List Reply → Outcome
unfolding message_loop
send_message message script = message_loop message 0 [] script

unfoldable pub need_to_repeat : Errno → Bool
need_to_repeat eintr = true
need_to_repeat eagain = true
need_to_repeat (other n) = false

-- The test of `while (transmit_bytes_count != size)` stands before each call.
buffer_loop : Bytes → ℕ → Bytes → List Reply → Outcome
buffer_loop buffer pos wire [] =
    if pos == length buffer then returned true wire [] else waiting wire
buffer_loop buffer pos wire (accepted n ∷ script) =
    let rest = buffer_loop buffer (pos + n) (wire ++ chunk buffer pos n) script in
    if pos == length buffer then returned true wire (accepted n ∷ script) else rest
buffer_loop buffer pos wire (failed e ∷ script) =
    let rest = buffer_loop buffer pos wire script in
    if pos == length buffer
    then returned true wire (failed e ∷ script)
    else if need_to_repeat e
    then rest
    else returned false wire script

unfoldable pub send_buffer : Bytes → List Reply → Outcome
unfolding buffer_loop need_to_repeat
send_buffer buffer script = buffer_loop buffer 0 [] script
