-- ===== src/Http.antt =====
-- hw7/cpp_httplib/server.cpp: the handlers of the HTTP server. httplib, which is a copy of another
-- project, calls them, and answers an exception with the status 500.
pub mod Chunks
pub mod Overflow
pub mod Client
pub mod Routes
pub mod Curl
pub mod Transfer
use cpp_network_homework.Prelude.{
  ℕ, ◌-◌, min, true, not, ◌&&◌, Option, none, some, List, [], ◌∷◌, ltb, ◌==◌, if◌then◌else◌, length,
  take, drop, set, Bytes, codes, equal,
}
use cpp_network_homework.Text.Number.{Stoi, value, invalid_argument, out_of_range, stoi, to_size_t}
use cpp_network_homework.FileServer.Transceiver.{read}
use cpp_network_homework.FileServer.Request.{FileSystem, recv_file_path}

-- `filename`, `fict` and `size_fict`; `filename` is one NUL at first.
pub record Query : Type 0 where
  pub filename : Bytes
  pub fict : ℕ
  pub size_fict : ℕ

abbrev pub no_query : Query
no_query = record { filename = 0 ∷ []; fict = 0; size_fict = 0 }

-- `fict = …; size_fict = std::stoi(…)`; `none` is an exception.
with_size : ℕ → Stoi → Query → Option Query
with_size fict (value n) q = some (record q { fict = fict; size_fict = to_size_t n })
with_size fict invalid_argument q = none
with_size fict out_of_range q = none

-- The three tests for one parameter; a name passes one of them at most.
read_param : Bytes × Bytes → Query → Option Query
read_param (name, text) q =
    if equal name (codes "filename")
    then some (record q { filename = text })
    else if equal name (codes "beans")
    then with_size 1 (stoi text) q
    else if equal name (codes "size")
    then with_size 2 (stoi text) q
    else some q

pub read_params : List (Bytes × Bytes) → Query → Option Query
read_params [] q = some q
read_params (p ∷ ps) q = elim (read_param p q) [ none ↦ none | some r ↦ read_params ps r ]

-- `lenght_f`, how much is asked for; the size of the block that `new char[…]` gave; the index that
-- the NUL is written at; and the block, of which the provider sends.
pub record Content : Type 0 where
  pub provided : ℕ
  pub allocated : ℕ
  pub nul_at : ℕ
  pub data_at : Bytes

-- The answer; `undefined` is a write behind the block, and `refused` the assertion of httplib that a
-- content provider is set with a length above 0.
pub data Answer : Type 0 where
  not_found thrown undefined refused : Answer
  content : Content → Answer

unfoldable pub limit_to : ℕ → ℕ → ℕ
limit_to total size = if ltb total size then total else size

-- Behind the tests, for a file of these bytes, up to `ifs.read`. `fresh` is what `new` finds in its
-- block.
unfoldable pub load : (ℕ → Bytes) → Query → Bytes → Content
load fresh q bytes =
    let total = length bytes in
    let size = limit_to total q.size_fict in
    let start = if q.fict == 1 then size else 0 in
    let count = if q.fict == 1 then total - size else if q.fict == 2 then size else total in
    let r = read count (record { rest = drop start bytes; good = true }) (fresh total) in
    record { provided = count; allocated = total; nul_at = count; data_at = r.1 }

-- `data[lenght_f] = 0`, in the block.
abbrev pub close_block : Content → Content
close_block c = record c { data_at = set c.data_at c.nul_at 0 }

-- The NUL is written, and the content provider set.
unfoldable pub send_content : Content → Answer
send_content c =
    if not (ltb c.nul_at c.allocated)
    then undefined
    else if c.provided == 0
    then refused
    else content (close_block c)

-- A file that does not open has the length -1, and `new` throws.
load_file : (ℕ → Bytes) → Query → Option Bytes → Answer
load_file fresh q none = thrown
load_file fresh q (some bytes) =
    if length bytes == 0 then not_found else send_content (load fresh q bytes)

module _ (fs : FileSystem) (fresh : ℕ → Bytes) where
  get_path : Query → Option Bytes → Answer
  get_path q none = not_found
  get_path q (some path) =
      if not (fs.exists path && fs.is_regular_file path)
      then not_found
      else load_file fresh q (fs.contents path)

  get_query : Option Query → Answer
  get_query none = thrown
  get_query (some q) = get_path q (recv_file_path fs q.filename)

  -- The handler of `/get`.
  pub get : List (Bytes × Bytes) → Answer
  get params = get_query (read_params params no_query)

abbrev pub data_chunk_size : ℕ
data_chunk_size = 4

-- The content provider: what it writes to the sink for an offset and a length.
unfoldable pub provide : Bytes → ℕ → ℕ → Bytes
provide data_at offset size = take (min size data_chunk_size) (drop offset data_at)
