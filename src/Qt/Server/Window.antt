-- ===== src/Qt/Server/Window.antt =====
-- The window of hw5/qt5_tcp_server/TcpServer.cpp with all its clients: the constructor, and the
-- slots as Qt calls them. An event is such a call; Qt makes it when the slot before has returned.
pub mod Turns
pub mod Idle
pub mod Answered
pub mod Shape
pub mod Clients
pub mod Stale
use cpp_network_homework.Prelude.{
  ℕ, Bool, true, false, Option, none, some, List, [], ◌∷◌, ◌++◌, if◌then◌else◌, set, get_elem?,
  Bytes, codes,
}
use cpp_network_homework.Qt.Stream.{Text}
use cpp_network_homework.Qt.Reader.{Reader}
use cpp_network_homework.Qt.Server.{Qt, Server, slot_read_client, slot_new_connection}

-- The socket of a client, and the bytes that have arrived at it and are not read. A socket that
-- is disconnected is deleted.
pub record Peer (K : Type 0) : Type 0 where
  pub socket : K
  pub arrived : Bytes
  pub connected : Bool

-- `listening` is whether `newConnection` is connected to its slot. The clients are numbered in the
-- order in which they came.
pub record Window (K : Type 0) : Type 0 where
  pub listening : Bool
  pub next_block_size : ℕ
  pub peers : List (Peer K)
  pub shown : List Text
  pub closed : Bool
  pub hung : Bool

-- The lines that the constructor shows.
abbrev pub welcome : List Text
welcome =
    codes "Running echo server..."
    ∷ codes "Command:"
    ∷ codes " exit - to quit"
    ∷ codes " get <filename> <beans/size> <number>"
    ∷ []

-- The constructor, with the result of `listen`; where it fails, the constructor returns.
unfoldable pub construct : (K : Type 0) → Bool → Window K
construct K listens = record {
  listening = listens;
  next_block_size = 0;
  peers = [];
  shown = if listens then welcome else [];
  closed = false;
  hung = false;
}

-- A client connects, bytes arrive from one, or one is disconnected.
pub data Event (K : Type 0) : Type 0 where
  connects : K → Event K
  arrives : ℕ → Bytes → Event K
  leaves : ℕ → Event K

module _ {K : Type 0} (qt : Qt K) where
  -- What a slot sees when this client is its sender.
  abbrev pub reader_of : Window K → Peer K → Reader (Server K)
  reader_of w p = record {
    next_block_size = w.next_block_size;
    arrived = p.arrived;
    state = record { socket = p.socket; shown = w.shown; closed = w.closed; hung = w.hung };
  }

  -- The window behind a slot for this client.
  abbrev pub behind : ℕ → Peer K → Window K → Reader (Server K) → Window K
  behind i p w r = record w {
    next_block_size = r.next_block_size;
    peers = set w.peers i (record p { socket = r.state.socket; arrived = r.arrived });
    shown = r.state.shown;
    closed = r.state.closed;
    hung = r.state.hung;
  }

  pub arrive : ℕ → Bytes → Window K → Option (Peer K) → Window K
  arrive i bytes w none = w
  arrive i bytes w (some p) =
      if p.connected then behind i p w (slot_read_client qt (reader_of w p) bytes) else w

  pub leave : ℕ → Window K → Option (Peer K) → Window K
  leave i w none = w
  leave i w (some p) = record w { peers = set w.peers i (record p { connected = false }) }

  pub accept : K → Window K → Window K
  accept k w =
      let p : Peer K = record { socket = k; arrived = []; connected = true } in
      let s = slot_new_connection qt (reader_of w p).state in
      if w.listening
      then record w { peers = w.peers ++ (record p { socket = s.socket } ∷ []) }
      else w

  pub call_slot : Event K → Window K → Window K
  call_slot (connects k) w = accept k w
  call_slot (arrives i bytes) w = arrive i bytes w (get_elem? w.peers i)
  call_slot (leaves i) w = leave i w (get_elem? w.peers i)

  -- The window is the only one of the program: when it is closed, the event loop of Qt ends, and no
  -- slot is called any more.
  pub on_event : Event K → Window K → Window K
  on_event e w = if w.closed then w else call_slot e w

  pub run : List (Event K) → Window K → Window K
  run [] w = w
  run (e ∷ es) w = run es (on_event e w)
