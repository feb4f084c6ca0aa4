-- ===== src/Qt/Server/Block.antt =====
-- The block of a file, as `TcpServer::send_to_file` makes it.
use cpp_network_homework.Prelude.{
  ℕ, ◌+◌, ◌-◌, ◌*◌, ◌%◌, ◌^◌, ◌<◌, ◌≡◌, refl, sym, ◌++◌, append_assoc, arith, ltb, if◌then◌else◌,
  length, drop, length-append, drop-length-append, Bytes,
}
use cpp_network_homework.Qt.Stream.{Text, IsQString, IsQt}
use cpp_network_homework.Qt.Frame.{overwrite}
use cpp_network_homework.Qt.Server.{Qt, read_from, start_at, amount, file_block}

module _ {K : Type 0} (qt : Qt K) where
  -- What the server reads of the file.
  abbrev pub part_of : Text → ℕ → ℕ → Bytes
  part_of path fict size =
      let total = qt.files.file_size path in
      let limited = if ltb total size then total else size in
      read_from (qt.files.opened path) (start_at qt fict limited) (amount qt fict limited total)

module _ {K : Type 0} (qt : Qt K) (w : IsQt qt.stream) where
  pub file_block_lem :
      (path : Text) (fict size : ℕ)
      → IsQString path
      → 4 + 2 * length path + length (part_of qt path fict size) < 2 ^ 31
      → file_block qt path fict size
        ≡ qt.stream.put_uint32 (4 + 2 * length path + length (part_of qt path fict size))
          ++ (qt.stream.put_string path ++ part_of qt path fict size)
  unfolding file_block overwrite
  file_block_lem path fict size h l =
      let part = part_of qt path fict size in
      let block = (qt.stream.put_uint32 0 ++ qt.stream.put_string path) ++ part in
      let n : (length block + 2 ^ 64 - 4) % 2 ^ 32 ≡ 4 + 2 * length path + length part = omega (
        arith,
        length-append (qt.stream.put_uint32 0 ++ qt.stream.put_string path) part,
        length-append (qt.stream.put_uint32 0) (qt.stream.put_string path),
        w.length-put_uint32 0,
        w.length-put_string path h,
      ) in
      let behind : drop (length (qt.stream.put_uint32 (4 + 2 * length path + length part))) block
          ≡ qt.stream.put_string path ++ part =
        rw (w.length-put_uint32 (4 + 2 * length path + length part)) (
          rw
            (
              sym (w.length-put_uint32 0),
              append_assoc (qt.stream.put_uint32 0) (qt.stream.put_string path) part,
            )
            (drop-length-append (qt.stream.put_uint32 0) (qt.stream.put_string path ++ part))) in
      rw (n, behind) refl
