-- ===== src/Qt/Client.antt =====
-- hw5/qt5_tcp_client/TcpClient.cpp. Parameters: `QDataStream`, `QString::section("/", -1)`, the
-- current directory, and which files open for writing.
pub mod Receive
pub mod File
pub mod Window
use cpp_network_homework.Prelude.{
  ℕ, ◌^◌, Bool, true, false, not, ◌&&◌, List, [], ◌∷◌, ◌++◌, ltb, ◌==◌, if◌then◌else◌, length,
  Bytes, codes, equal,
}
use cpp_network_homework.Qt.Stream.{Text, DataStream}
use cpp_network_homework.Qt.Frame.{frame}
use cpp_network_homework.Qt.Reader.{Reader, ready_read}

pub record Local : Type 0 where
  pub stream : DataStream
  pub section_last : Text → Text
  pub current : Text
  pub opens : Text → Bool

-- `block_size_`, the lines of the window, whether it is closed, and the files written, by path.
pub record Client : Type 0 where
  pub block_size : ℕ
  pub shown : List Text
  pub closed : Bool
  pub files : List (Text × Bytes)

abbrev pub show : Text → Client → Client
show line c = record c { shown = c.shown ++ (line ∷ []) }

-- `QAbstractSocket::SocketError`, as far as `slot_error` tells them apart.
pub data SocketError : Type 0 where
  host_not_found remote_host_closed connection_refused : SocketError
  other_error : Text → SocketError

unfoldable pub error_text : SocketError → Text
error_text host_not_found = codes "The host was not found."
error_text remote_host_closed = codes "The remote host is closed."
error_text connection_refused = codes "The connection was refused."
error_text (other_error s) = s

pub slot_error : SocketError → Client → Client
slot_error err c = show (codes "Error:" ++ error_text err) c

pub slot_connected : Client → Client
slot_connected c = show (codes "Received the connected() signal") c

module _ (l : Local) where
  -- `slot_send_to_server`: the block that is written for the text of the input line, which becomes
  -- empty.
  pub slot_send_to_server : Text → Bytes × Text
  slot_send_to_server input = (frame l.stream input, [])

  -- `block_size_` is a `qint32`: with its top bit set it is negative, and no number of bytes is
  -- below it.
  is_short_of : ℕ → ℕ → Bool
  is_short_of available size = ltb size (2 ^ 31) && ltb available size

  -- Behind the tests: the name, and all that has arrived behind it.
  store_file : Bytes → Client → Bool × Bytes × Client
  store_file rest c =
      let name = l.stream.get_string rest in
      let target = l.current ++ (b'/' ∷ l.section_last name.0) in
      if l.opens target
      then (true, [], record c { block_size = 0; files = c.files ++ ((target, name.1) ∷ []) })
      else (false, [], record c { block_size = 0 })

  read_block : Bytes → Client → Bool × Bytes × Client
  read_block arrived c =
      if is_short_of (length arrived) c.block_size
      then (false, arrived, c)
      else store_file arrived c

  -- `read_file`, on the bytes that have arrived: its result and the bytes left.
  pub read_file : Bytes → Client → Bool × Bytes × Client
  read_file arrived c =
      let size = l.stream.get_uint32 arrived in
      if not (c.block_size == 0)
      then read_block arrived c
      else if ltb (length arrived) 4
      then (false, arrived, c)
      else read_block size.1 (record c { block_size = size.0 })

  shown_after : Bool × Bytes × Client → Bytes × Client
  shown_after (done, rest, c) =
      (rest, show (if done then codes "File write" else codes "File can't write") c)

  do_exit : Text → Client → Client
  do_exit str c =
      if equal str (codes "exit") then record (show (codes "Breaking") c) { closed = true } else c

  pub react : Text → Bytes → Client → Bytes × Client
  react str rest c =
      let d = do_exit str (show str c) in
      if equal str (codes "get") then shown_after (read_file rest d) else (rest, d)

  pub slot_ready_read : Reader Client → Bytes → Reader Client
  slot_ready_read = ready_read l.stream react
