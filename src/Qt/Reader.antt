-- ===== src/Qt/Reader.antt =====
-- The loop of `slot_read_client` in hw5/qt5_tcp_server/TcpServer.cpp and of `slot_ready_read` in
-- hw5/qt5_tcp_client/TcpClient.cpp, which take the messages from what has arrived.
pub mod Rounds
pub mod Drained
pub mod Reassembly
pub mod Handover
pub mod Shared
use cpp_network_homework.Prelude.{
  ℕ, zero, suc, ◌+◌, Bool, true, false, not, Option, none, some, List, [], ◌∷◌, ◌++◌, ltb, ◌==◌,
  if◌then◌else◌, length, Bytes,
}
use cpp_network_homework.Qt.Stream.{Text, DataStream}

-- `next_block_size_`, the bytes that have arrived and are not read, and the rest of the program's
-- state.
pub record Reader (S : Type 0) : Type 0 where
  pub next_block_size : ℕ
  pub arrived : Bytes
  pub state : S

module _ {S : Type 0} (q : DataStream) (react : Text → Bytes → S → Bytes × S) where
  -- Behind the two tests: the message is read, `next_block_size_` is 0 again, and the message is
  -- acted on, which may read on.
  pub take_message : Reader S → Reader S
  take_message r =
      let m = q.get_string r.arrived in
      let done = react m.0 m.1 r.state in
      record { next_block_size = 0; arrived = done.0; state = done.1 }

  -- The first test, with the read behind it; `none` is its `break`.
  pub take_size : Reader S → Option (Reader S)
  take_size r =
      if not (r.next_block_size == 0)
      then some r
      else if ltb (length r.arrived) 2
      then none
      else some (record r {
        next_block_size = (q.get_uint16 r.arrived).0;
        arrived = (q.get_uint16 r.arrived).1;
      })

  -- One round: `false` beside the reader is a `break`.
  after_size : Reader S → Option (Reader S) → Reader S × Bool
  after_size r none = (r, false)
  after_size r (some s) =
      if ltb (length s.arrived) s.next_block_size then (s, false) else (take_message s, true)

  pub round : Reader S → Reader S × Bool
  round r = after_size r (take_size r)

  -- `for (;;)`, with a bound on the rounds.
  pub drain : ℕ → Reader S → Reader S
  drain zero r = r
  drain (suc fuel) r = let n = round r in let more = drain fuel n.0 in if n.1 then more else n.0

  -- The slot, when `bytes` have arrived. Each round but the first takes a size of 2 bytes, so that
  -- the bound is enough.
  pub ready_read : Reader S → Bytes → Reader S
  ready_read r bytes =
      drain (length (r.arrived ++ bytes) + 2) (record r { arrived = r.arrived ++ bytes })

  -- The slot for one piece after another.
  unfoldable pub feed : Reader S → List Bytes → Reader S
  feed r [] = r
  feed r (c ∷ cs) = feed (ready_read r c) cs

  -- The same for a window that may be closed by what it reads: it is the only one of its program, so
  -- that the event loop of Qt ends behind the slot, and the slot is not called again.
  unfoldable pub feed_open : (S → Bool) → Reader S → List Bytes → Reader S
  feed_open closed r [] = r
  feed_open closed r (c ∷ cs) =
      let more = feed_open closed (ready_read r c) cs in if closed r.state then r else more

-- What comes of acting on messages, one after another.
abbrev pub acts : {S : Type 0} → (Text → S → S) → List Text → S → S
acts act [] s = s
acts act (m ∷ ms) s = acts act ms (act m s)
