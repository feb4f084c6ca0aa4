-- ===== src/Qt/Frame.antt =====
-- A message as `TcpServer::send_to_client` and `TcpClient::slot_send_to_server` write it: a block of
-- a `quint16`, the size of what follows, and a text.
use cpp_network_homework.Prelude.{
  ℕ, ◌+◌, ◌-◌, ◌*◌, ◌%◌, ◌^◌, ◌<◌, ◌≡◌, sym, ap, ◌∙◌, List, [], ◌∷◌, ◌++◌, arith, length, drop,
  length-append, drop-length-append, Bytes,
}
use cpp_network_homework.Qt.Stream.{Text, DataStream, IsQString, IsQt}

-- Writing at the front of a block that is there already.
unfoldable pub overwrite : Bytes → Bytes → Bytes
overwrite new block = new ++ drop (length new) block

-- `static_cast<quint16>(block.size() - sizeof(quint16))`.
unfoldable pub size_field : ℕ → ℕ
size_field size = (size + 2 ^ 64 - 2) % 2 ^ 16

module _ (q : DataStream) where
  pub first_block : Text → Bytes
  first_block str = q.put_uint16 0 ++ q.put_string str

  pub frame : Text → Bytes
  frame str = overwrite (q.put_uint16 (size_field (length (first_block str)))) (first_block str)

abbrev pub frames : DataStream → List Text → Bytes
frames q [] = []
frames q (m ∷ ms) = frame q m ++ frames q ms

-- A text whose size fits the `quint16` in front of it.
abbrev pub IsShort : Text → Type 0
IsShort s = IsQString s × (4 + 2 * length s < 2 ^ 16)

abbrev pub body_size : Text → ℕ
body_size s = 4 + 2 * length s

module _ (q : DataStream) (w : IsQt q) where
  length-first_block : (s : Text) → IsQString s → length (first_block q s) ≡ 2 + body_size s
  unfolding first_block
  length-first_block s h =
      length-append (q.put_uint16 0) (q.put_string s)
      ∙ omega (arith, w.length-put_uint16 0, w.length-put_string s h)

  -- The block of a text is the size modulo 2 ^ 16, and then the text.
  pub frame_lem :
      (s : Text) → IsQString s → frame q s ≡ q.put_uint16 (body_size s % 2 ^ 16) ++ q.put_string s
  unfolding frame overwrite size_field
  frame_lem s h =
      let n : (length (first_block q s) + 2 ^ 64 - 2) % 2 ^ 16 ≡ body_size s % 2 ^ 16 =
        omega (arith, length-first_block s h) in
      rw n (ap (λ t. q.put_uint16 (body_size s % 2 ^ 16) ++ t) behind)
    where
      behind :
          drop (length (q.put_uint16 (body_size s % 2 ^ 16))) (first_block q s) ≡ q.put_string s
      behind =
          let e : length (q.put_uint16 (body_size s % 2 ^ 16)) ≡ length (q.put_uint16 0) =
            w.length-put_uint16 _ ∙ sym (w.length-put_uint16 0) in
          rw e (unfold first_block in drop-length-append (q.put_uint16 0) (q.put_string s))
