-- ===== src/Http/Client.antt =====
-- hw7/cpp_httplib/client.cpp. What httplib answers to the three requests is a parameter: a status
-- and a body, or `none`, the result without a response that `->` must not be used on.
pub mod Copy
pub mod Download
use cpp_network_homework.Prelude.{
  ℕ, ◌+◌, Option, none, some, List, [], ◌∷◌, ◌++◌, ltb, if◌then◌else◌, length, take, set, Bytes,
}
use cpp_network_homework.Text.{c_string}
use cpp_network_homework.Text.Number.{Stoi, value, invalid_argument, out_of_range, stoi}

-- `lenght_f`, the block of `new char[10000]`, and how far `p` is in it.
pub record Buffer : Type 0 where
  pub lenght_f : ℕ
  pub body : Bytes
  pub p : ℕ

-- The loop of the callback; `none` is a write behind the block.
unfoldable pub copy_bytes : Bytes → Buffer → Option Buffer
copy_bytes [] b = some b
copy_bytes (c ∷ data_bytes) b =
    let more = copy_bytes data_bytes (record b { body = set b.body b.p c; p = b.p + 1 }) in
    if ltb b.p (length b.body) then more else none

-- The callback, for one piece of the response.
unfoldable pub on_data : Bytes → Buffer → Option Buffer
on_data piece b = copy_bytes piece (record b { lenght_f = b.lenght_f + length piece })

unfoldable pub on_pieces : List Bytes → Buffer → Option Buffer
on_pieces [] b = some b
on_pieces (piece ∷ pieces) b = elim (on_data piece b) [ none ↦ none | some d ↦ on_pieces pieces d ]

-- Behind the request: the NUL, the bytes that the file gets, and the text that is printed up to
-- its first NUL; `none` is a write behind the block.
unfoldable pub finish : Buffer → Option (Bytes × Bytes)
finish b =
    let ended = set b.body b.lenght_f 0 in
    if ltb b.lenght_f (length b.body) then some (take b.lenght_f ended, c_string ended) else none

unfoldable pub finish_buffer : Option Buffer → Option (Bytes × Bytes)
finish_buffer none = none
finish_buffer (some b) = finish b

-- The second request: what `new` found in the block, and the pieces of the response.
unfoldable pub download : Bytes → List Bytes → Option (Bytes × Bytes)
download fresh pieces =
    finish_buffer (on_pieces pieces (record { lenght_f = 0; body = fresh; p = 0 }))

pub record Response : Type 0 where
  pub status : ℕ
  pub body : Bytes

-- What the script of one run gives: the responses, the pieces of the second one, and what `new`
-- finds in its block.
pub record Script : Type 0 where
  pub root : Option Response
  pub fresh : Bytes
  pub pieces : List Bytes
  pub got : Option Response
  pub left : Option Response

-- The end of the program: a failure, an exception that nothing catches, an undefined behaviour, in
-- which the file `hello` may have been written, or success with the file and what is printed.
pub data Ended : Type 0 where
  failure thrown : Ended
  undefined : Option Bytes → Ended
  success : Bytes → List (ℕ × Bytes) → Ended

leave : Bytes → List (ℕ × Bytes) → Option Response → Ended
leave file printed none = undefined (some file)
leave file printed (some r) = success file (printed ++ ((r.status, r.body) ∷ []))

show_file : Bytes → Bytes → List (ℕ × Bytes) → Option Response → Option Response → Ended
show_file file text printed left none = undefined (some file)
show_file file text printed left (some r) = leave file (printed ++ ((r.status, text) ∷ [])) left

store : List (ℕ × Bytes) → Script → Option (Bytes × Bytes) → Ended
store printed s none = undefined none
store printed s (some (file, text)) = show_file file text printed s.left s.got

get_file : Script → Option Response → Ended
get_file s none = undefined none
get_file s (some r) = store ((r.status, r.body) ∷ []) s (download s.fresh s.pieces)

connect : Script → Stoi → Ended
connect s (value port) = get_file s s.root
connect s invalid_argument = thrown
connect s out_of_range = thrown

pub main : List Bytes → Script → Ended
main (program ∷ server ∷ port ∷ []) s = connect s (stoi port)
main _ s = failure
