-- ===== src/FileServer/Transceiver.antt =====
-- `Transceiver::send_file` of hw4/tcp_server/main.cpp. The file is its bytes, `none` where it does
-- not open. The script holds the replies of `send` (see Send).
pub mod Rounds
pub mod Blocks
pub mod Wanted
use cpp_network_homework.Prelude.{
  ℕ, zero, suc, ◌-◌, Bool, true, false, ◌&&◌, Option, none, some, List, [], ◌++◌, ltb, leb, ◌==◌,
  if◌then◌else◌, length, take, drop, replicate, Bytes,
}
use cpp_network_homework.Send.{Reply, Outcome, returned, waiting, send_buffer}

-- The fields behind the socket.
pub record Transceiver : Type 0 where
  pub fict : ℕ
  pub size_fict : ℕ

-- `std::ifstream`: the bytes from the read position on, and whether the stream is still good.
pub record Input : Type 0 where
  pub rest : Bytes
  pub good : Bool

-- `read(&buffer[0], n)`: a read of more than is left takes what there is and fails. The buffer
-- keeps what it held behind the bytes read.
unfoldable pub read : ℕ → Input → Bytes → Input × Bytes
read n input buffer = (
  record { rest = drop n input.rest; good = leb n (length input.rest) },
  take n input.rest ++ drop (length (take n input.rest)) buffer,
)

-- What is read in a round, and what is left to read behind it.
unfoldable pub portion : ℕ → ℕ → ℕ
portion size count = if ltb count size then count else size

unfoldable pub remaining : ℕ → ℕ → ℕ
remaining size count = if ltb count size then 0 else count - size

-- Behind `send_buffer`: the loop goes on if the buffer was sent.
after_send : (Bytes → List Reply → Outcome) → Bytes → Outcome → Outcome
after_send next wire (waiting w) = waiting (wire ++ w)
after_send next wire (returned sent w later) =
    let more = next (wire ++ w) later in if sent then more else returned false (wire ++ w) later

-- `while (file_stream && count > 0)` over a buffer of `size` bytes. Each round takes at least one
-- from `count`, so that the second number, which only bounds the rounds, may be `count`. A round
-- sends the whole buffer.
pub file_loop : ℕ → ℕ → Input → ℕ → Bytes → Bytes → List Reply → Outcome
file_loop size zero input count buffer wire script = returned true wire script
file_loop size (suc fuel) input count buffer wire script =
    let r = read (portion size count) input buffer in
    let round =
      after_send (file_loop size fuel r.0 (remaining size count) r.1) wire
        (send_buffer r.1 script) in
    if input.good && ltb 0 count then round else returned true wire script

unfoldable pub zeros : ℕ → Bytes
zeros n = replicate n 0

-- `buffer_size`.
abbrev pub buffer_size : ℕ
buffer_size = 4096

-- Where reading starts, and how much is to be sent, for a file of `total` bytes.
unfoldable pub start_at : ℕ → ℕ → ℕ
start_at fict size_fict = if fict == 1 then size_fict else 0

unfoldable pub amount : ℕ → ℕ → ℕ → ℕ
amount fict size_fict total = if fict == 1 then total else if fict == 2 then size_fict else total

pub send_opened : Transceiver → Bytes → List Reply → Outcome
send_opened t bytes script =
    file_loop buffer_size (amount t.fict t.size_fict (length bytes))
      (record { rest = drop (start_at t.fict t.size_fict) bytes; good = true })
      (amount t.fict t.size_fict (length bytes)) (zeros buffer_size) [] script

-- `if (size_fict_ > count) size_fict_ = count;` changes the object.
unfoldable pub limited : Transceiver → ℕ → Transceiver
limited t total = record t { size_fict = if ltb total t.size_fict then total else t.size_fict }

pub send_file : Transceiver → Option Bytes → List Reply → Transceiver × Outcome
send_file t none script = (t, returned false [] script)
send_file t (some bytes) script =
    (limited t (length bytes), send_opened (limited t (length bytes)) bytes script)
