-- ===== src/Http/Transfer.antt =====
-- What the handler of hw7/cpp_httplib/server.cpp answers for a file that is there.
use cpp_network_homework.Prelude.{
  ℕ, ◌<◌, ◌≡◌, ap, ◌∙◌, true, false, not, some, List, arith, ltb, ◌==◌, if◌then◌else◌, length,
  Bytes,
}
use cpp_network_homework.FileServer.Request.{FileSystem, recv_file_path}
use cpp_network_homework.Http.{
  Query, no_query, read_params, Content, undefined, refused, content, load, close_block,
  send_content, load_file, get_path, get_query, get,
}
use cpp_network_homework.Http.Chunks.{pull, part_for, load_provided, pull-part_for}

-- What the calls of the provider give of a content.
abbrev pub sent_of : Content → Bytes
sent_of c = pull c.provided c.data_at 0 c.provided

-- The handler on a request for a file that is there.
get_found :
    (fs : FileSystem) (new : ℕ → Bytes) (params : List (Bytes × Bytes)) (q : Query)
    (path bytes : Bytes)
    → read_params params no_query ≡ some q
    → recv_file_path fs q.filename ≡ some path
    → fs.exists path ≡ true
    → fs.is_regular_file path ≡ true
    → fs.contents path ≡ some bytes
    → 0 < length bytes
    → get fs new params ≡ send_content (load new q bytes)
unfolding get get_query get_path load_file
get_found fs new params q path bytes read found exists regular holds some_bytes =
    let not_empty : (length bytes == 0) ≡ false = ground arith in
    ap (get_query fs new) read
    ∙ (ap (get_path fs new q) found ∙ simp (exists, regular, holds, not_empty))

send_content-part :
    (new : ℕ → Bytes) (q : Query) (bytes : Bytes)
    → length (new (length bytes)) ≡ length bytes
    → let part = part_for q bytes in
      send_content (load new q bytes) ≡ (
        if not (ltb (length part) (length bytes))
        then undefined
        else if length part == 0
        then refused
        else content (close_block (load new q bytes)))
unfolding send_content load
send_content-part new q bytes sized =
    let size = (load_provided new q bytes sized).2 in
    let c = load new q bytes in
    ap
      (λ n.
        if not (ltb n (length bytes))
        then undefined
        else if n == 0
        then refused
        else content (close_block c))
      size

-- The handler of `/get` on a request whose parameters it reads, for a file that exists, is regular,
-- opens, and is not empty. If the part that is asked for is neither the whole file nor empty, it sets
-- a content, and the calls of the provider give that part, exactly. If it is the whole file, the
-- handler writes behind its block, which is undefined; if it is empty, httplib refuses the content.
-- `new` gives as many bytes as it is asked for.
pub get-part_for :
    (fs : FileSystem) (new : ℕ → Bytes) (params : List (Bytes × Bytes)) (q : Query)
    (path bytes : Bytes)
    → ((n : ℕ) → length (new n) ≡ n)
    → read_params params no_query ≡ some q
    → recv_file_path fs q.filename ≡ some path
    → fs.exists path ≡ true
    → fs.is_regular_file path ≡ true
    → fs.contents path ≡ some bytes
    → 0 < length bytes
    → let part = part_for q bytes in
      (c : Content) × (sent_of c ≡ part)
      × (get fs new params ≡ (
          if not (ltb (length part) (length bytes))
          then undefined
          else if length part == 0
          then refused
          else content c))
get-part_for fs new params q path bytes sized read found exists regular holds some_bytes = (
  close_block (load new q bytes),
  pull-part_for new q bytes (sized (length bytes)),
  get_found fs new params q path bytes read found exists regular holds some_bytes
      ∙ send_content-part new q bytes (sized (length bytes)),
)
