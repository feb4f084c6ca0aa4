-- ===== src/Async.antt =====
-- hw4/tcp_asio_server/main.cpp. Boost's `io_context` calls one completion handler after another: in
-- each step an operation that is pending completes, and its handler runs. The commands that are
-- printed are left out.
pub mod Reach
pub mod Service
pub mod Refined
pub mod Port
pub mod Settled
use cpp_network_homework.Prelude.{
  ◌≤◌, ◌<◌, ◌≡◌, Bool, true, false, Option, none, some, List, [], ◌∷◌, ◌++◌, if◌then◌else◌, length,
  Bytes, codes, equal,
}
use cpp_network_homework.Text.{c_string}
use cpp_network_homework.Text.Stream.{parse_command}

-- What a `Session` waits for: `async_read_some`, `async_write` of these bytes, or nothing more; the
-- bytes behind `gone` were received and not sent back.
pub data Phase : Type 0 where
  reading : Phase
  writing gone : Bytes → Phase

-- A session with all that it has received, and what its completed writes have sent.
pub record Session : Type 0 where
  pub phase : Phase
  pub received : Bytes
  pub sent : Bytes

-- `exited` is the end of the program by `std::exit`.
pub record Server : Type 0 where
  pub sessions : List Session
  pub exited : Bool

abbrev pub do_read : Session → Session
do_read x = record x { phase = reading }

-- `Session::start` of a socket that was accepted.
abbrev pub start : Session
start = do_read (record { phase = gone []; received = []; sent = [] })

-- The session, and whether the program ends.
unfoldable pub do_command : Bytes → Session → Session × Bool
do_command bytes x =
    if equal (parse_command (c_string bytes)).command (codes "exit")
    then (record x { phase = gone bytes }, true)
    else (record x { phase = writing bytes }, false)

-- The handler of a read: `none` is an error.
unfoldable pub on_read : Option Bytes → Session → Session × Bool
on_read none x = (record x { phase = gone [] }, false)
on_read (some bytes) x = do_command bytes (record x { received = x.received ++ bytes })

-- The handler of a write of these bytes, with whether there was no error.
unfoldable pub on_written : Bytes → Bool → Session → Session
on_written bytes true x = do_read (record x { sent = x.sent ++ bytes })
on_written bytes false x = record x { phase = gone bytes }

-- The handler of `async_accept`; it accepts again in either case.
unfoldable pub on_accept : Bool → List Session → List Session
on_accept true xs = xs ++ (start ∷ [])
on_accept false xs = xs

-- A read gives between 1 and 1024 bytes, the size of the buffer less 1, or an error.
abbrev pub FitsRead : Option Bytes → Type 0
FitsRead none = Unit
FitsRead (some bytes) = (0 < length bytes) × (length bytes ≤ 1024)

-- One step of a program that has not exited: the accept, or the pending operation of any one
-- session, completes.
pub data Step : Server → Server → Type 0 where
  accept_done :
      (xs : List Session) (ok : Bool)
      → Step
          (record { sessions = xs; exited = false })
          (record { sessions = on_accept ok xs; exited = false })
  read_done :
      (xs ys : List Session) (x : Session) (r : Option Bytes)
      → FitsRead r
      → x.phase ≡ reading
      → Step
          (record { sessions = xs ++ (x ∷ ys); exited = false })
          (record { sessions = xs ++ ((on_read r x).0 ∷ ys); exited = (on_read r x).1 })
  write_done :
      (xs ys : List Session) (x : Session) (bytes : Bytes) (ok : Bool)
      → x.phase ≡ writing bytes
      → Step
          (record { sessions = xs ++ (x ∷ ys); exited = false })
          (record { sessions = xs ++ (on_written bytes ok x ∷ ys); exited = false })

-- The states that the program comes to, with no session at first.
pub data Reachable : Server → Type 0 where
  started : Reachable (record { sessions = []; exited = false })
  steps : {s t : Server} → Reachable s → Step s t → Reachable t
