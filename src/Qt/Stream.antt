-- ===== src/Qt/Stream.antt =====
-- `QDataStream`, which Qt implements: the encodings of `quint16`, `quint32` and `QString` as bytes,
-- with what Qt's documentation of its serialization states of them. A text is its UTF-16 units.
pub mod Wire
use cpp_network_homework.Prelude.{ℕ, ◌+◌, ◌*◌, ◌^◌, ◌≤◌, ◌<◌, ◌≡◌, List, ◌++◌, length, All, Bytes}

abbrev pub Text : Type 0
Text = List ℕ

pub record DataStream : Type 0 where
  pub put_uint16 : ℕ → Bytes
  pub put_uint32 : ℕ → Bytes
  pub put_string : Text → Bytes
  pub get_uint16 : Bytes → ℕ × Bytes
  pub get_uint32 : Bytes → ℕ × Bytes
  pub get_string : Bytes → Text × Bytes

-- A text that a stream holds: UTF-16 units, at most 2 ^ 30 of them.
abbrev pub IsQString : Text → Type 0
IsQString s = All (λ u. u < 2 ^ 16) s × (length s < 2 ^ 30)

-- Numbers take 2 and 4 bytes, a text 4 bytes and 2 for each unit, and what is written is read back.
-- A read takes bytes from the front.
pub record IsQt (q : DataStream) : Type 0 where
  pub length-put_uint16 : (n : ℕ) → length (q.put_uint16 n) ≡ 2
  pub length-put_uint32 : (n : ℕ) → length (q.put_uint32 n) ≡ 4
  pub length-put_string : (s : Text) → IsQString s → length (q.put_string s) ≡ 4 + 2 * length s
  pub get-put_uint16 :
      (n : ℕ) (r : Bytes) → n < 2 ^ 16 → q.get_uint16 (q.put_uint16 n ++ r) ≡ (n, r)
  pub get-put_uint32 :
      (n : ℕ) (r : Bytes) → n < 2 ^ 32 → q.get_uint32 (q.put_uint32 n ++ r) ≡ (n, r)
  pub get-put_string :
      (s : Text) (r : Bytes) → IsQString s → q.get_string (q.put_string s ++ r) ≡ (s, r)
  pub length-get_string : (b : Bytes) → length (q.get_string b).1 ≤ length b
  pub length-get_uint16 : (b : Bytes) → 2 ≤ length b → length (q.get_uint16 b).1 + 2 ≤ length b
