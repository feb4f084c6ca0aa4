-- ===== src/Tcp.antt =====
-- The programs of hw3: what `recv` gives both of them.
pub mod Server
pub mod Client
pub mod Conversation
use cpp_network_homework.Prelude.{Bool, true, false, Bytes}
use cpp_network_homework.Send.{Errno, eintr, eagain, other}

-- What one call of `recv` returns: the bytes, none of them at the end of the stream, or -1.
pub data Received : Type 0 where
  received : Bytes → Received
  refused : Errno → Received

-- `EINTR == errno`.
unfoldable pub is_eintr : Errno → Bool
is_eintr eintr = true
is_eintr eagain = false
is_eintr (other n) = false
