-- ===== src/Qt/Server.antt =====
-- hw5/qt5_tcp_server/TcpServer.cpp. Parameters: `QDataStream`; `QTcpSocket::write`, on a socket of
-- type `K`, with the answer `none` for -1; `QTextStream`, which takes the words from a message; and
-- the file system. The window is the list of the lines that `txt_ptr_->append` gets.
pub mod Replies
pub mod Block
pub mod Window
use cpp_network_homework.Prelude.{
  ℕ, zero, suc, ◌+◌, ◌-◌, ◌%◌, ◌^◌, Bool, true, false, not, ◌&&◌, Option, none, some, List, [], ◌∷◌,
  ◌++◌, ltb, ◌==◌, if◌then◌else◌, length, take, drop, Bytes, codes, equal,
}
use cpp_network_homework.Text.Stream.{is_empty}
use cpp_network_homework.Qt.Stream.{Text, DataStream}
use cpp_network_homework.Qt.Frame.{overwrite, frame}
use cpp_network_homework.Qt.Reader.{Reader, ready_read}

pub record Request : Type 0 where
  pub command : Text
  pub filename : Text
  pub fiction : Text
  pub size_fict : ℕ

-- `QDir::current().path()`, and for the path of a file `exists`, `size`, and its bytes if it opens.
pub record Files : Type 0 where
  pub current : Text
  pub exists : Text → Bool
  pub file_size : Text → ℕ
  pub opened : Text → Option Bytes

pub record Qt (K : Type 0) : Type 0 where
  pub stream : DataStream
  pub write : K → Bytes → K × Option ℕ
  pub parse : Text → Request
  pub files : Files

-- The part of `TcpServer` that a slot changes, with the socket of the sender. `hung` is a slot that
-- does not return.
pub record Server (K : Type 0) : Type 0 where
  pub socket : K
  pub shown : List Text
  pub closed : Bool
  pub hung : Bool

unfoldable pub read_from : Option Bytes → ℕ → ℕ → Bytes
read_from none start count = []
read_from (some bytes) start count = take count (drop start bytes)

unfoldable pub fict_of : Text → ℕ
fict_of fiction =
    if equal fiction (codes "beans") then 1 else if equal fiction (codes "size") then 2 else 0

module _ {K : Type 0} (qt : Qt K) where
  pub send_to_client : K → Text → K
  send_to_client k str = (qt.write k (frame qt.stream str)).0

  -- What is lacking of the block behind a call of `write`: -1 counts as such.
  pub lacking_after : ℕ → Option ℕ → ℕ
  lacking_after lacking none = lacking + 1
  lacking_after lacking (some y) = lacking - y

  -- `while (x < block.size())`, by what `x` lacks of the size. The first number bounds the rounds,
  -- and `none` is a loop that goes on.
  pub write_loop : ℕ → K → Bytes → ℕ → Option K
  write_loop zero k block lacking = if lacking == 0 then some k else none
  write_loop (suc fuel) k block lacking =
      let w = qt.write k block in
      let more = write_loop fuel w.0 block (lacking_after lacking w.1) in
      if lacking == 0 then some k else more

  unfoldable pub path_of : Text → Text
  path_of filename = qt.files.current ++ (b'/' ∷ filename)

  -- `file.seek(size_fict)` and `count`, with `size_fict` limited to the size of the file.
  unfoldable pub start_at : ℕ → ℕ → ℕ
  start_at fict size = if fict == 1 then size else 0

  unfoldable pub amount : ℕ → ℕ → ℕ → ℕ
  amount fict size total = if fict == 1 then total - size else if fict == 2 then size else total

  -- The block of a file: the size of what follows as a `quint32`, the path, and the bytes read.
  pub file_block : Text → ℕ → ℕ → Bytes
  file_block path fict size =
      let total = qt.files.file_size path in
      let limited = if ltb total size then total else size in
      let bytes =
        read_from (qt.files.opened path) (start_at fict limited) (amount fict limited total) in
      let block = (qt.stream.put_uint32 0 ++ qt.stream.put_string path) ++ bytes in
      overwrite (qt.stream.put_uint32 ((length block + 2 ^ 64 - 4) % 2 ^ 32)) block

  pub is_open : Option Bytes → Bool
  is_open none = false
  is_open (some bytes) = true

  unfoldable pub send_to_file : K → Text → ℕ → ℕ → Option K
  send_to_file k filename fict size =
      let path = path_of filename in
      let block = file_block path fict size in
      let sent = write_loop (length block) k block (length block) in
      if is_empty filename
      then some k
      else if not (qt.files.exists path) && not (is_open (qt.files.opened path))
      then some k
      else sent

  -- The lines of a slot, one after another.
  pub show : Text → Server K → Server K
  show line s = record s { shown = s.shown ++ (line ∷ []) }

  pub reply : Text → Server K → Server K
  reply str s = record s { socket = send_to_client s.socket str }

  pub do_exit : Request → Server K → Server K
  do_exit c s =
      if equal c.command (codes "exit")
      then record (reply c.command (show (codes "Breaking") s)) { closed = true }
      else s

  unfoldable pub with_file : Server K → Option K → Server K
  with_file s none = record s { hung = true }
  with_file s (some k) = record s { socket = k }

  unfoldable pub do_get : Request → Server K → Server K
  do_get c s =
      let r = reply c.command s in
      if equal c.command (codes "get") && not (is_empty c.filename)
      then with_file r (send_to_file r.socket c.filename (fict_of c.fiction) c.size_fict)
      else s

  -- What the slot does with a message.
  unfoldable pub on_message : Text → Server K → Server K
  on_message str s =
      let c = qt.parse str in
      do_get c (
        do_exit c (
          reply (codes "Server Response: Received \"" ++ (str ++ codes "\""))
            (show (codes "Client has sent - " ++ str) s)))

  -- Acting on a message reads no further.
  pub react : Text → Bytes → Server K → Bytes × Server K
  react str rest s = (rest, on_message str s)

  unfoldable pub slot_read_client : Reader (Server K) → Bytes → Reader (Server K)
  slot_read_client = ready_read qt.stream react

  -- A new connection is greeted.
  pub slot_new_connection : Server K → Server K
  slot_new_connection s = reply (codes "Server Response: Connected!") s
