-- ===== src/Qt/Conversation.antt =====
-- The client of hw5/qt5_tcp_client/TcpClient.cpp with the server of
-- hw5/qt5_tcp_server/TcpServer.cpp, for a request of a file.
use cpp_network_homework.Prelude.{
  ◌+◌, ◌*◌, ◌^◌, ◌<◌, ◌≡◌, refl, sym, ap, ◌∙◌, true, false, List, [], ◌∷◌, ◌++◌, append-nil, length,
  Bytes, codes, equal, concat,
}
use cpp_network_homework.Text.Stream.{is_empty}
use cpp_network_homework.Qt.Stream.{Text, IsQString, IsQt}
use cpp_network_homework.Qt.Frame.{frame, IsShort}
use cpp_network_homework.Qt.Reader.{Reader, feed}
use cpp_network_homework.Qt.Server.{Qt, Server, fict_of, path_of, file_block, react}
use cpp_network_homework.Qt.Server.Block.{part_of}
use cpp_network_homework.Qt.Server.Replies.{IsWhole, echo_of, reply_to, slot_read_client-replies}
use cpp_network_homework.Qt.Client.{Local, Client, slot_ready_read}
use cpp_network_homework.Qt.Client.File.{target_of, stored, slot_ready_read_stores}

-- A message by which a client asks for a file that the server has: the path is a text that a stream
-- holds, and the block of the file is smaller than 2 ^ 31 bytes.
pub record Asks {K : Type 0} (qt : Qt K) (str : Text) : Type 0 where
  pub short : IsShort str
  pub echo_short : IsShort (echo_of str)
  pub command : (qt.parse str).command ≡ codes "get"
  pub named : is_empty (qt.parse str).filename ≡ false
  pub there : qt.files.exists (path_of qt (qt.parse str).filename) ≡ true
  pub path_holds : IsQString (path_of qt (qt.parse str).filename)
  pub small :
      4
        + 2 * length (path_of qt (qt.parse str).filename)
        + length (
            part_of qt
              (path_of qt (qt.parse str).filename)
              (fict_of (qt.parse str).fiction)
              (qt.parse str).size_fict)
      < 2 ^ 31

module _ {K : Type 0} (qt : Qt K) (str : Text) where
  abbrev pub asked_path : Text
  asked_path = path_of qt (qt.parse str).filename

  abbrev asked_block : Bytes
  asked_block = file_block qt asked_path (fict_of (qt.parse str).fiction) (qt.parse str).size_fict

  abbrev pub asked_part : Bytes
  asked_part = part_of qt asked_path (fict_of (qt.parse str).fiction) (qt.parse str).size_fict

  -- What the server sends: the echo, the word `get`, and the file.
  reply_asked :
      Asks qt str
      → reply_to qt str
        ≡ frame qt.stream (echo_of str) ++ (frame qt.stream (codes "get") ++ asked_block)
  unfolding equal
  reply_asked a = simp (a.command, a.named, a.there)

echo_is_no_command :
    (str : Text)
    → (equal (echo_of str) (codes "exit") ≡ false) × (equal (echo_of str) (codes "get") ≡ false)
unfolding equal
echo_is_no_command str = (refl, refl)

-- A whole request of a file: the message of a client, cut into pieces in any way, makes the server
-- send the reply to it, and when that arrives in one piece at the client, which waits for no block,
-- the client shows the echo and the word `get`, stores under the last part of the path in its own
-- directory exactly the bytes that the server has read of the file, reports it, and is ready for the
-- next message. The server has the file, and its block is smaller than 2 ^ 31 bytes; texts fit their
-- size fields; the socket takes whole blocks; both programs have the same `QDataStream`, which reads
-- back what it writes; and the target opens for writing.
pub get_conversation :
    {K : Type 0} (qt : Qt K) (sent : K → Bytes) (l : Local) (str : Text) (pieces : List Bytes)
    (s : Server K) (c : Client)
    → IsWhole qt sent
    → IsQt qt.stream
    → l.stream ≡ qt.stream
    → Asks qt str
    → concat pieces ≡ frame qt.stream str
    → c.block_size ≡ 0
    → l.opens (target_of l (asked_path qt str)) ≡ true
    → let server : Reader (Server K) = record { next_block_size = 0; arrived = []; state = s } in
      let client : Reader Client = record { next_block_size = 0; arrived = []; state = c } in
      (sent (feed qt.stream (react qt) server pieces).state.socket
        ≡ sent s.socket ++ reply_to qt str)
      × (slot_ready_read l client (reply_to qt str) ≡ record {
        next_block_size = 0;
        arrived = [];
        state =
            stored l
              (asked_path qt str)
              (asked_part qt str)
              (record c { shown = c.shown ++ (echo_of str ∷ []) });
      })
get_conversation qt sent l str pieces s c w q same a cut z o =
    let other = echo_is_no_command str in
    let served =
      slot_read_client-replies qt sent w (str ∷ []) pieces s q (a.short, tt)
        (cut ∙ sym (append-nil (frame qt.stream str))) in
    let told : reply_to qt str
        ≡ frame l.stream (echo_of str) ++ (frame l.stream (codes "get") ++ asked_block qt str) =
      reply_asked qt str a
      ∙ ap (λ d. frame d (echo_of str) ++ (frame d (codes "get") ++ asked_block qt str))
          (sym same) in
    (
      served.0 ∙ ap (λ t. sent s.socket ++ t) (append-nil (reply_to qt str)),
      ap (slot_ready_read l _) told
          ∙ slot_ready_read_stores qt l (echo_of str) (asked_path qt str)
              (fict_of (qt.parse str).fiction) (qt.parse str).size_fict c q same a.echo_short
              other.0 other.1 a.path_holds a.small z o,
    )
