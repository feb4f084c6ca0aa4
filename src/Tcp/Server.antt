-- ===== src/Tcp/Server.antt =====
-- hw3/server/main.cpp. The operating system is three scripts: the answers to `accept`, to `recv`
-- and to `send`. What the server prints is left out.
pub mod Echo
use cpp_network_homework.Prelude.{
  ℕ, Bool, true, false, not, Option, some, List, [], ◌∷◌, ◌++◌, if◌then◌else◌, Bytes,
}
use cpp_network_homework.Text.{c_string}
use cpp_network_homework.Text.Number.{Stoi, value, invalid_argument, out_of_range, stoi, to_uint16}
use cpp_network_homework.Send.{Reply, Outcome, returned, waiting, send_message}
use cpp_network_homework.Socket.{
  Socket, Log, opened, socket_open, socket_adopt, move_assign, destroy,
}
use cpp_network_homework.Tcp.{Received, received, refused, is_eintr}

-- `communicate` returns, or waits in `recv` or `send`, with the bytes that the client is sent.
pub data Served : Type 0 where
  ended : Bool → Bytes → List Received → List Reply → Served
  blocked : Bytes → Served

-- Behind `send_message`, whose result is not looked at.
after_message : (Bytes → List Reply → Served) → Bytes → Outcome → Served
after_message next wire (waiting w) = blocked (wire ++ w)
after_message next wire (returned ok w later) = next (wire ++ w) later

pub communicate : List Received → Bytes → List Reply → Served
communicate [] wire sends = blocked wire
communicate (received [] ∷ script) wire sends = ended true wire script sends
communicate (received (c ∷ cs) ∷ script) wire sends =
    after_message (communicate script) wire (send_message (c_string (c ∷ cs)) sends)
communicate (refused e ∷ script) wire sends =
    let rest = communicate script wire sends in
    if is_eintr e then rest else ended true wire script sends

-- `main` returns, with the calls of `close` and what the clients were sent, or throws, or waits.
pub data Exit : Type 0 where
  failure success : Log → Bytes → Exit
  uncaught : Exit
  waits : Bytes → Exit

-- What the loop works with: `exit_state`, `newsock`, the log of `close`, the wire.
pub record Loop : Type 0 where
  pub exit_state : Bool
  pub newsock : Socket
  pub log : Log
  pub wire : Bytes

-- The objects are destroyed in the opposite order of their declaration.
pub leave : Socket → Loop → Log
leave sock l = destroy sock (destroy l.newsock l.log)

-- `newsock = accept(…)`: the temporary object that adopts the descriptor is moved from, and then
-- destroyed.
unfoldable pub assign_accepted : Option ℕ → Loop → Loop
assign_accepted answer l =
    let m = move_assign l.newsock (socket_adopt answer) l.log in
    record l { newsock = m.0; log = destroy m.1 m.2 }

-- Behind `communicate`.
pub after_client : (Loop → List Received → List Reply → Exit) → Loop → Served → Exit
after_client next l (blocked w) = waits w
after_client next l (ended b w recvs sends) =
    next (record l { exit_state = b; wire = w }) recvs sends

pub accept_loop : Socket → Loop → List (Option ℕ) → List Received → List Reply → Exit
accept_loop sock l [] recvs sends =
    if l.exit_state then success (leave sock l) (l.wire) else waits l.wire
accept_loop sock l (answer ∷ accepts) recvs sends =
    let a = assign_accepted answer l in
    let served =
      after_client (λ n r s. accept_loop sock n accepts r s) a (communicate recvs a.wire sends) in
    if l.exit_state
    then success (leave sock l) l.wire
    else if not (opened a.newsock)
    then failure (leave sock a) a.wire
    else served

-- The descriptor of `newsock` is 0 at first.
unfoldable pub initial : Log → Loop
initial log = record { exit_state = false; newsock = socket_adopt (some 0); log = log; wire = [] }

-- What the system answers to `socket`, and which ports `bind` takes. The answer of `listen` is not
-- looked at.
pub run_on : Stoi → Option ℕ → (ℕ → Bool) → List (Option ℕ) → List Received → List Reply → Exit
run_on invalid_argument answer binds accepts recvs sends = uncaught
run_on out_of_range answer binds accepts recvs sends = uncaught
run_on (value port) answer binds accepts recvs sends =
    let s = socket_open answer [] in
    if not (opened s.0)
    then failure (destroy s.0 s.1) []
    else if not (binds (to_uint16 port))
    then failure (destroy s.0 s.1) []
    else accept_loop s.0 (initial s.1) accepts recvs sends

pub main : List Bytes → Option ℕ → (ℕ → Bool) → List (Option ℕ) → List Received → List Reply → Exit
main (program ∷ port ∷ []) answer binds accepts recvs sends =
    run_on (stoi port) answer binds accepts recvs sends
main _ answer binds accepts recvs sends = failure [] []
