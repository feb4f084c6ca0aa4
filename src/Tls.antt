-- ===== src/Tls.antt =====
-- hw6/qt5_tcp_server: SslServer.cpp and TcpServer.cpp. Parameters: which files open, with their
-- bytes; the slots that the base class declares; and those of Qt.Server. A certificate and a key are
-- the bytes that they are made of, `none` where there are none yet.
pub mod Settings
pub mod Slots
use cpp_network_homework.Prelude.{
  ℕ, Bool, true, false, ◌&&◌, ◌||◌, Option, none, some, List, [], ◌∷◌, ◌++◌, ltb, if◌then◌else◌,
  length, drop, Bytes, codes, equal,
}
use cpp_network_homework.Qt.Stream.{Text}
use cpp_network_homework.Qt.Server.{
  Request, Qt, Server, fict_of, send_to_file, show, reply, do_exit, with_file, slot_new_connection,
}
use cpp_network_homework.Qt.Reader.{Reader, ready_read}

-- `QSsl::SslProtocol`, as far as the program uses it.
pub data Protocol : Type 0 where
  unknown_protocol tls_v1_2 : Protocol

-- A `QSslSocket`, which encrypts with what was set when it was made.
pub record SslSocket : Type 0 where
  pub descriptor : ℕ
  pub local_certificate : Option Bytes
  pub private_key : Option Bytes
  pub protocol : Protocol
  pub connected : Bool

pub record SslServer : Type 0 where
  pub ssl_local_certificate : Option Bytes
  pub ssl_private_key : Option Bytes
  pub ssl_protocol : Protocol
  pub pending : List SslSocket

abbrev pub new_ssl_server : SslServer
new_ssl_server = record {
  ssl_local_certificate = none;
  ssl_private_key = none;
  ssl_protocol = unknown_protocol;
  pending = [];
}

unfoldable pub incoming_connection : ℕ → SslServer → SslServer
incoming_connection d s = record s {
  pending =
      s.pending
      ++ (record {
        descriptor = d;
        local_certificate = s.ssl_local_certificate;
        private_key = s.ssl_private_key;
        protocol = s.ssl_protocol;
        connected = true;
      }
          ∷ []);
}

-- The setters of a value.
abbrev pub set_certificate : Option Bytes → SslServer → SslServer
set_certificate c s = record s { ssl_local_certificate = c }

abbrev pub set_key : Option Bytes → SslServer → SslServer
set_key k s = record s { ssl_private_key = k }

-- The setters from a file, which may not open, with whether it did.
unfoldable pub set_ssl_local_certificate : Option Bytes → SslServer → SslServer × Bool
set_ssl_local_certificate none s = (s, false)
set_ssl_local_certificate (some bytes) s = (set_certificate (some bytes) s, true)

unfoldable pub set_ssl_private_key : Option Bytes → SslServer → SslServer × Bool
set_ssl_private_key none s = (s, false)
set_ssl_private_key (some bytes) s = (set_key (some bytes) s, true)

abbrev pub set_ssl_protocol : Protocol → SslServer → SslServer
set_ssl_protocol p s = record s { ssl_protocol = p }

-- What the constructor of `TcpServer` sets; the results of the setters are not looked at.
unfoldable pub configured : (Bytes → Option Bytes) → SslServer
configured file =
    let c = set_ssl_local_certificate (file (codes "sslserver.pem")) new_ssl_server in
    let k = set_ssl_private_key (file (codes "sslserver.key")) c.0 in set_ssl_protocol tls_v1_2 k.0

unfoldable pub contains : List Bytes → Bytes → Bool
contains [] name = false
contains (x ∷ xs) name = equal x name || contains xs name

-- The slots of `TcpServer`, behind those of its base class.
abbrev pub declared_slots : List Bytes → List Bytes
declared_slots inherited =
    codes "slot_new_connection()"
    ∷ codes "slot_read_client()"
    ∷ codes "slot_disconnect()"
    ∷ inherited

-- The lines that the constructor shows.
abbrev pub welcome : List Text
welcome =
    codes "Running echo server..."
    ∷ codes "Command:"
    ∷ codes " exit - to quit"
    ∷ codes " get <filename> <beans/size> <number>"
    ∷ []

-- The window: `listening` is whether connections arrive, `greets` whether `newConnection()` is
-- connected to a slot. `reads` and `disconnects` are whether `readyRead()` and `disconnected()` of the
-- last client that was greeted are; `slots` are the slots that the window has.
pub record Window (K : Type 0) : Type 0 where
  pub ssl : SslServer
  pub listening : Bool
  pub greets : Bool
  pub reads : Bool
  pub disconnects : Bool
  pub slots : List Bytes
  pub server : Server K

-- The constructor, with the result of `listen`; where it fails, the constructor returns. `connect`
-- with the name of a slot finds the slot of that name, or connects nothing.
unfoldable pub construct :
    {K : Type 0} → Bool → (Bytes → Option Bytes) → List Bytes → Server K → Window K
construct listens file inherited server =
    let w : Window _ = record {
      ssl = configured file;
      listening = listens;
      greets = false;
      reads = false;
      disconnects = false;
      slots = declared_slots inherited;
      server = server;
    } in
    if listens
    then record w {
      greets = contains (declared_slots inherited) (codes "slotNewConnection()");
      server = record server { shown = server.shown ++ welcome };
    }
    else w

-- The default of `QTcpServer::maxPendingConnections`, which the program leaves.
abbrev pub max_pending : ℕ
max_pending = 30

-- `nextPendingConnection()` takes the first one.
abbrev next_pending : SslServer → SslServer
next_pending s = record s { pending = drop 1 s.pending }

-- The slot that nothing is connected to: it disconnects its sender.
pub slot_disconnect : SslSocket → SslSocket
slot_disconnect k = record k { connected = false }

module _ {K : Type 0} (qt : Qt K) where
  unfoldable pub greet : Window K → Window K
  greet w =
      if w.greets
      then record w {
        ssl = next_pending w.ssl;
        reads = contains w.slots (codes "slotReadClient()");
        disconnects = contains w.slots (codes "disconnect()");
        server = slot_new_connection qt w.server;
      }
      else w

  -- A connection is made, to a server that listens: it becomes pending, and the slot that is
  -- connected runs. While as many are pending as there may be, Qt accepts none.
  unfoldable pub connection : ℕ → Window K → Window K
  connection d w =
      if w.listening && ltb (length w.ssl.pending) max_pending
      then greet (record w { ssl = incoming_connection d w.ssl })
      else w

  pub connections : List ℕ → Window K → Window K
  connections [] w = w
  connections (d ∷ ds) w = connections ds (connection d w)

  -- The test of `sizeof(filename) > 0` always holds.
  unfoldable pub do_get_any : Request → Server K → Server K
  do_get_any c s =
      let r = reply qt c.command s in
      if equal c.command (codes "get")
      then with_file qt r (send_to_file qt r.socket c.filename (fict_of c.fiction) c.size_fict)
      else s

  unfoldable pub on_tls_message : Text → Server K → Server K
  on_tls_message str s =
      let c = qt.parse str in
      do_get_any c (
        do_exit qt c (
          reply qt (codes "Server Response: Received \"" ++ (str ++ codes "\""))
            (show qt (codes "Client has sent - " ++ str) s)))

  abbrev pub react_tls : Text → Bytes → Server K → Bytes × Server K
  react_tls str rest s = (rest, on_tls_message str s)

  pub slot_read_tls_client : Reader (Server K) → Bytes → Reader (Server K)
  slot_read_tls_client = ready_read qt.stream react_tls
