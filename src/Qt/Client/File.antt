-- ===== src/Qt/Client/File.antt =====
-- A file from the block that the Qt server writes to the file that the Qt client stores.
use cpp_network_homework.Prelude.{
  ℕ, ◌+◌, ◌*◌, ◌^◌, ◌<◌, ◌≡◌, refl, sym, ap, subst, ◌∙◌, true, false, ◌&&◌, [], ◌∷◌, ◌++◌,
  append-nil, arith, ltb, ◌==◌, length, length-append, Bytes, codes, equal,
}
use cpp_network_homework.Qt.Stream.{Text, IsQString, IsQt}
use cpp_network_homework.Qt.Frame.{frame, IsShort}
use cpp_network_homework.Qt.Client.{
  Local, Client, show, is_short_of, store_file, read_block, read_file, shown_after, do_exit, react,
  slot_ready_read,
}
use cpp_network_homework.Qt.Server.{Qt, file_block}
use cpp_network_homework.Qt.Server.Block.{part_of, file_block_lem}
use cpp_network_homework.Qt.Reader.Handover.{ready_read_message, ready_read_two}

read_file_whole :
    (l : Local) (path : Text) (part : Bytes) (c : Client)
    → IsQt l.stream
    → IsQString path
    → 4 + 2 * length path + length part < 2 ^ 31
    → c.block_size ≡ 0
    → l.opens (l.current ++ (b'/' ∷ l.section_last path)) ≡ true
    → read_file l
        (l.stream.put_uint32 (4 + 2 * length path + length part)
          ++ (l.stream.put_string path ++ part))
        c
      ≡ (
        true,
        [],
        record c {
          block_size = 0;
          files = c.files ++ ((l.current ++ (b'/' ∷ l.section_last path), part) ∷ []);
        },
      )
unfolding read_file read_block is_short_of store_file
read_file_whole l path part c w h small z o =
    let n = 4 + 2 * length path + length part in
    let rest = l.stream.put_string path ++ part in
    let first : (c.block_size == 0) ≡ true = ground arith in
    let four : ltb (length (l.stream.put_uint32 n ++ rest)) 4 ≡ false =
      ground (arith, length-append (l.stream.put_uint32 n) rest, w.length-put_uint32 n) in
    let whole : (ltb n (2 ^ 31) && ltb (length rest) n) ≡ false =
      ground (arith, length-append (l.stream.put_string path) part, w.length-put_string path h) in
    rw (first, four, w.get-put_uint32 n rest (omega arith), whole, w.get-put_string path part h, o)
      refl

react_get :
    (l : Local) (rest : Bytes) (c : Client)
    → react l (codes "get") rest c ≡ shown_after l (read_file l rest (show (codes "get") c))
unfolding react do_exit equal
react_get l rest c = refl

pub get_IsShort : IsShort (codes "get")
get_IsShort = ground arith

-- The path under which the client stores a file of the server.
abbrev pub target_of : Local → Text → Text
target_of l path = l.current ++ (b'/' ∷ l.section_last path)

-- The client when it has stored these bytes.
abbrev pub stored : Local → Text → Bytes → Client → Client
stored l path part c = record c {
  block_size = 0;
  shown = (c.shown ++ (codes "get" ∷ [])) ++ (codes "File write" ∷ []);
  files = c.files ++ ((target_of l path, part) ∷ []);
}

pub react_stores :
    {K : Type 0} (qt : Qt K) (l : Local) (path : Text) (fict size : ℕ) (c : Client)
    → IsQt qt.stream
    → l.stream ≡ qt.stream
    → IsQString path
    → 4 + 2 * length path + length (part_of qt path fict size) < 2 ^ 31
    → c.block_size ≡ 0
    → l.opens (target_of l path) ≡ true
    → react l (codes "get") (file_block qt path fict size) c
      ≡ ([], stored l path (part_of qt path fict size) c)
unfolding shown_after
react_stores qt l path fict size c w same h small z o =
    let w' : IsQt l.stream = subst IsQt (sym same) w in
    let part = part_of qt path fict size in
    let n = 4 + 2 * length path + length part in
    let block : file_block qt path fict size
        ≡ l.stream.put_uint32 n ++ (l.stream.put_string path ++ part) =
      file_block_lem qt w path fict size h small
      ∙ ap (λ q. q.put_uint32 n ++ (q.put_string path ++ part)) (sym same) in
    let read = read_file_whole l path part (show (codes "get") c) w' h small z o in
    rw block (react_get l _ c ∙ ap (shown_after l) read)

react_other :
    (l : Local) (str : Text) (rest : Bytes) (c : Client)
    → equal str (codes "exit") ≡ false
    → equal str (codes "get") ≡ false
    → react l str rest c ≡ (rest, show str c)
unfolding react do_exit
react_other l str rest c e g = rw (e, g) refl

-- The slot on a message that is no command, the word `get`, and the block of a file.
pub slot_ready_read_stores :
    {K : Type 0} (qt : Qt K) (l : Local) (str path : Text) (fict size : ℕ) (c : Client)
    → IsQt qt.stream
    → l.stream ≡ qt.stream
    → IsShort str
    → equal str (codes "exit") ≡ false
    → equal str (codes "get") ≡ false
    → IsQString path
    → 4 + 2 * length path + length (part_of qt path fict size) < 2 ^ 31
    → c.block_size ≡ 0
    → l.opens (target_of l path) ≡ true
    → slot_ready_read l
        (record { next_block_size = 0; arrived = []; state = c })
        (frame l.stream str ++ (frame l.stream (codes "get") ++ file_block qt path fict size))
      ≡ record {
        next_block_size = 0;
        arrived = [];
        state = stored l path (part_of qt path fict size) (show str c);
      }
unfolding slot_ready_read
slot_ready_read_stores qt l str path fict size c w same short e g h small z o =
    let block = file_block qt path fict size in
    let last = react_stores qt l path fict size (show str c) w same h small z o in
    ready_read_two l.stream (subst IsQt (sym same) w) (react l) str (codes "get") block c
      (show str c) short get_IsShort (react_other l str _ c e g) (ap (λ r. r.0) last)
    ∙ ap (λ x. record { next_block_size = 0; arrived = []; state = x }) (ap (λ r. r.1) last)

-- When the word `get` arrives alone at a client that waits for no block, the client reports that
-- it cannot write, stores nothing, and stands where it takes what arrives next for a message.
-- `QDataStream` reads back what it writes.
pub get_too_early :
    (l : Local) (c : Client)
    → IsQt l.stream
    → c.block_size ≡ 0
    → slot_ready_read l
        (record { next_block_size = 0; arrived = []; state = c })
        (frame l.stream (codes "get"))
      ≡ record {
        next_block_size = 0;
        arrived = [];
        state = record c {
          shown = (c.shown ++ (codes "get" ∷ [])) ++ (codes "File can't write" ∷ []);
        };
      }
unfolding slot_ready_read shown_after read_file
get_too_early l c w z =
    let first : (c.block_size == 0) ≡ true = ground arith in
    let acted : react l (codes "get") [] c ≡ shown_after l (false, [], show (codes "get") c) =
      react_get l [] c ∙ rw first refl in
    rw (sym (append-nil (frame l.stream (codes "get")))) (
      ready_read_message l.stream w (react l) (codes "get") [] c get_IsShort (ap (λ r. r.0) acted)
      ∙ ap (λ x. record { next_block_size = 0; arrived = []; state = x }) (ap (λ r. r.1) acted))
