-- ===== src/FileServer/Request/Sending.antt =====
-- `process` of a request for a file that is there.
use cpp_network_homework.Prelude.{◌*◌, ◌≡◌, refl, true, some, List, length, take, Bytes}
use cpp_network_homework.Send.{Reply}
use cpp_network_homework.FileServer.Transceiver.{Transceiver}
use cpp_network_homework.FileServer.Transceiver.Rounds.{joined, ServesAll}
use cpp_network_homework.FileServer.Transceiver.Blocks.{wanted, buffers_for}
use cpp_network_homework.FileServer.Transceiver.Wanted.{send_file-wanted}
use cpp_network_homework.FileServer.Request.{
  FileSystem, processed, recv_file_path, send_file_at, after_sending, process_path, process,
}

-- The path that a request names is there, and is a file with these bytes.
abbrev pub Holds : FileSystem → Bytes → Bytes → Bytes → Type 0
Holds fs name path bytes =
    (recv_file_path fs name ≡ some path)
    × (fs.exists path ≡ true)
    × (fs.is_regular_file path ≡ true)
    × (fs.contents path ≡ some bytes)

-- `process` of a file that is there, with a `send` that serves each buffer.
pub process-wanted :
    (fs : FileSystem) (t : Transceiver) (name path bytes : Bytes) (ps : List (List Reply))
    (more : List Reply)
    → Holds fs name path bytes
    → ServesAll 4096 ps
    → length ps ≡ buffers_for t (length bytes)
    → (out : Bytes) × (process fs t name (joined ps more) ≡ processed true out more)
      × (take (length (wanted t bytes)) out ≡ wanted t bytes)
      × (length out ≡ 4096 * buffers_for t (length bytes))
unfolding process process_path send_file_at after_sending
process-wanted fs t name path bytes ps more (named, there, regular, held) s e =
    let sent = send_file-wanted t bytes ps more s e in
    (sent.0, rw (named, there, regular, held, sent.1) refl, sent.2, sent.3)
