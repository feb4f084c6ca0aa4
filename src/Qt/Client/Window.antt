-- ===== src/Qt/Client/Window.antt =====
-- The constructors of hw5/qt5_tcp_client/TcpClient.cpp and hw6/qt5_tcp_client/TcpClient.cpp, and
-- what the window does on a signal: `connect` by the name of a slot connects nothing if the class
-- and its base class have no slot of that name. The slots of both classes are the same, but for the
-- type of the socket. What a slot of the base class does is a parameter. The window is the only one
-- of its program: when it is closed, the event loop of Qt ends, and no slot is called any more.
pub mod Deaf
use cpp_network_homework.Prelude.{
  Bool, false, ◌||◌, List, [], ◌∷◌, ◌++◌, if◌then◌else◌, Bytes, codes, equal,
}
use cpp_network_homework.Qt.Stream.{Text}
use cpp_network_homework.Qt.Reader.{Reader}
use cpp_network_homework.Qt.Client.{
  Local, Client, SocketError, slot_error, slot_connected, slot_send_to_server, slot_ready_read,
}

-- The slots that both classes declare.
pub data Slot : Type 0 where
  ready_read_slot error_slot send_to_server_slot connected_slot : Slot

-- What a signal is connected to.
pub data Target : Type 0 where
  nothing : Target
  own : Slot → Target
  inherited : Bytes → Target

unfoldable pub is_in : List Bytes → Bytes → Bool
is_in [] name = false
is_in (x ∷ xs) name = equal x name || is_in xs name

-- The slots that the base class declares, by their names.
unfoldable pub inherited_slot : List Bytes → Bytes → Target
inherited_slot base name = if is_in base name then inherited name else nothing

-- The slot of a name, the class's own first.
unfoldable pub slot_of : List Bytes → Bytes → Target
slot_of base name =
    if equal name (codes "slot_ready_read()")
    then own ready_read_slot
    else if equal name (codes "slot_error(QAbstractSocket::SocketError)")
    then own error_slot
    else if equal name (codes "slot_send_to_server()")
    then own send_to_server_slot
    else if equal name (codes "slot_connected()")
    then own connected_slot
    else inherited_slot base name

-- The signals of the socket, of the button, and of the input line, with their targets.
pub record Connections : Type 0 where
  pub connected : Target
  pub ready_read : Target
  pub error : Target
  pub clicked : Target
  pub return_pressed : Target

-- hw5 connects all but the error by the addresses of the slots.
unfoldable pub connections_by_address : List Bytes → Connections
connections_by_address base = record {
  connected = own connected_slot;
  ready_read = own ready_read_slot;
  error = slot_of base (codes "slotError(QAbstractSocket::SocketError)");
  clicked = own send_to_server_slot;
  return_pressed = own send_to_server_slot;
}

-- hw6 connects all by names.
unfoldable pub connections_by_name : List Bytes → Connections
connections_by_name base = record {
  connected = slot_of base (codes "slotConnected()");
  ready_read = slot_of base (codes "slotReadyRead()");
  error = slot_of base (codes "slotError(QAbstractSocket::SocketError)");
  clicked = slot_of base (codes "slotSendToServer()");
  return_pressed = slot_of base (codes "slotSendToServer()");
}

-- The members, the text of the input line, and all that has been written to the socket.
pub record Window : Type 0 where
  pub reader : Reader Client
  pub input : Text
  pub written : Bytes

-- The lines that both constructors show.
abbrev pub greeting : List Text
greeting =
    codes "Running echo server..."
    ∷ codes "Command:"
    ∷ codes " exit - to quit"
    ∷ codes " get <filename> <beans/size> <number>"
    ∷ codes " "
    ∷ []

abbrev pub new_window : Window
new_window = record {
  reader = record {
    next_block_size = 0;
    arrived = [];
    state = record { block_size = 0; shown = greeting; closed = false; files = [] };
  };
  input = [];
  written = [];
}

-- What happens to a window; a text is typed into the input line.
pub data Event : Type 0 where
  connects clicks presses_return : Event
  arrives : Bytes → Event
  fails : SocketError → Event
  types : Text → Event

abbrev pub on_client : (Client → Client) → Window → Window
on_client f w = record w { reader = record (w.reader) { state = f w.reader.state } }

-- A slot, as long as the window is open.
abbrev pub while_open : (Window → Window) → Window → Window
while_open slot w = if w.reader.state.closed then w else slot w

module _ (l : Local) (base_slot : Bytes → Window → Window) where
  pub send_to_server : Window → Window
  send_to_server w =
      let sent = slot_send_to_server l w.input in
      record w { input = sent.1; written = w.written ++ sent.0 }

  -- A slot without arguments, run by its signal.
  pub run_slot : Slot → Window → Window
  run_slot ready_read_slot w = record w { reader = slot_ready_read l w.reader [] }
  run_slot send_to_server_slot w = send_to_server w
  run_slot connected_slot w = on_client slot_connected w
  run_slot error_slot w = w

  pub call : Target → Window → Window
  call nothing w = w
  call (own s) w = while_open (run_slot s) w
  call (inherited name) w = while_open (base_slot name) w

  pub call_error : Target → SocketError → Window → Window
  call_error nothing err w = w
  call_error (own error_slot) err w = while_open (on_client (slot_error err)) w
  call_error (own s) err w = while_open (run_slot s) w
  call_error (inherited name) err w = while_open (base_slot name) w

  -- Bytes that arrive stand at the socket, whatever reads them.
  pub arrive : Bytes → Window → Window
  arrive bytes w = record w { reader = record (w.reader) { arrived = w.reader.arrived ++ bytes } }

  pub step : Connections → Event → Window → Window
  step k connects w = call k.connected w
  step k clicks w = call k.clicked w
  step k presses_return w = call k.return_pressed w
  step k (arrives bytes) w = call k.ready_read (arrive bytes w)
  step k (fails err) w = call_error k.error err w
  step k (types text) w = record w { input = text }

  pub run : Connections → List Event → Window → Window
  run k [] w = w
  run k (e ∷ events) w = run k events (step k e w)
