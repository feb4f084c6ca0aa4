-- ===== src/Udp/Server.antt =====
-- hw1/udp_server/main.cpp. What the server asks of the operating system is a script: what each
-- call of `recvfrom` gives, in order. The resolver and the text of an address are parameters.
pub mod Echo
pub mod Clients
pub mod Reordered
use cpp_network_homework.Prelude.{
  ℕ, Bool, true, not, Option, none, some, List, [], ◌∷◌, ◌++◌, ltb, if◌then◌else◌, length, Bytes,
  codes, equal,
}
use cpp_network_homework.Text.{trim}
use cpp_network_homework.Text.Number.{Stoi, value, invalid_argument, out_of_range, stoi, to_uint16}

-- `inet_ntop`, `ntohs`, `inet_aton` and `gethostbyaddr`, over the addresses `A` of clients and the
-- addresses `I` of hosts.
pub record Resolver (A I : Type 0) : Type 0 where
  pub ntop : A → Bytes
  pub port_of : A → ℕ
  pub aton : Bytes → Option I
  pub name_of : I → Option Bytes

-- What `recvfrom` returns: the bytes of a datagram and its sender, or -1.
pub data Received (A : Type 0) : Type 0 where
  datagram : A → Bytes → Received A
  failed : Received A

-- What the server prints of a datagram.
pub record Report : Type 0 where
  pub address : Bytes
  pub port : ℕ
  pub name : Bytes
  pub length_printed : ℕ
  pub text : Bytes

-- The replies that have been sent, in order, with their receivers, and what was printed.
pub record Sent (A : Type 0) : Type 0 where
  pub replies : List (A × Bytes)
  pub reports : List Report

-- The loop leaves by `run = false`, or by an exception that nothing catches, or waits.
pub data Outcome (A : Type 0) : Type 0 where
  stopped : Sent A → List (Received A) → Outcome A
  terminated : Sent A → Outcome A
  waiting : Sent A → Outcome A

pub data Exit (A : Type 0) : Type 0 where
  failure uncaught : Exit A
  ran : ℕ → Outcome A → Exit A

name_or_unknown : Option Bytes → Bytes
name_or_unknown none = codes "Unknown"
name_or_unknown (some name) = name

module _ {A I : Type 0} (r : Resolver A I) where
  host_of : Option I → Bytes
  host_of none = codes "Unknown"
  host_of (some i) = name_or_unknown (r.name_of i)

  pub host_by_ip : Bytes → Bytes
  host_by_ip addr = host_of (r.aton addr)

  -- What is printed and sent for a datagram of which `command` is left by `trim`.
  answer : A → Bytes → Bytes → Sent A → Sent A
  answer from bytes command sent = record {
    replies = sent.replies ++ ((from, command) ∷ []);
    reports =
        sent.reports
        ++ (record {
          address = r.ntop from;
          port = r.port_of from;
          name = host_by_ip (r.ntop from);
          length_printed = length bytes;
          text = command;
        }
            ∷ []);
  }

  -- The body of the loop behind `trim`: the new `sent`, and whether `run` is still true. A datagram
  -- of no bytes is passed over.
  pub handle : A → Bytes → Bytes → Sent A → Sent A × Bool
  handle from bytes command sent =
      if ltb 0 (length bytes)
      then (answer from bytes command sent, not (equal command (codes "exit")))
      else (sent, true)

  -- The size of `command_string` is `static_cast<std::size_t>(-1)` when `recvfrom` fails, and the
  -- constructor throws `std::length_error`. `trim` may throw too.
  pub serve : List (Received A) → Sent A → Outcome A
  serve [] sent = waiting sent
  serve (failed ∷ script) sent = terminated sent
  serve (datagram from bytes ∷ script) sent = elim (trim bytes) [
    | none ↦ terminated sent
    | some command ↦
        let next = serve script (handle from bytes command sent).0 in
        if (handle from bytes command sent).1
        then next
        else stopped (handle from bytes command sent).0 script
  ]

  abbrev pub nothing : Sent A
  nothing = record { replies = []; reports = [] }

  run_on : Stoi → Bool → (ℕ → Bool) → List (Received A) → Exit A
  run_on invalid_argument opened binds script = uncaught
  run_on out_of_range opened binds script = uncaught
  run_on (value p) opened binds script =
      if not opened
      then failure
      else if not (binds (to_uint16 p))
      then failure
      else ran (to_uint16 p) (serve script nothing)

  -- `main`, with whether the socket opens and which ports `bind` takes.
  pub main : List Bytes → Bool → (ℕ → Bool) → List (Received A) → Exit A
  main (program ∷ port ∷ []) opened binds script = run_on (stoi port) opened binds script
  main _ opened binds script = failure
