-- ===== src/Http/Curl/Saved.antt =====
-- What the client with cpr saves of a file of the server.
use cpp_network_homework.Prelude.{
  ℕ, ◌<◌, ◌≡◌, refl, ap, ◌∙◌, true, false, some, List, [], ◌∷◌, arith, ltb, ◌==◌, lt→ltb, length,
  take, drop, length-take, length-drop, Bytes, codes, equal,
}
use cpp_network_homework.Text.Number.{stoi, to_size_t}
use cpp_network_homework.FileServer.Request.{FileSystem, recv_file_path}
use cpp_network_homework.Http.{
  Query, no_query, with_size, read_param, read_params, Content, undefined, content, get,
}
use cpp_network_homework.Http.Transfer.{sent_of, get-part_for}
use cpp_network_homework.Http.Routes.{Request, Response, text, file, is_undefined, handle, listen}
use cpp_network_homework.Http.Curl.{get_request, requests, files}

abbrev pub first_ten : Query
first_ten = record { filename = codes "hello"; fict = 2; size_fict = 10 }

abbrev pub but_six : Query
but_six = record { filename = codes "hello"; fict = 1; size_fict = 6 }

abbrev pub size_params : List (Bytes × Bytes)
size_params = (codes "filename", codes "hello") ∷ (codes "size", codes "10") ∷ []

abbrev pub beans_params : List (Bytes × Bytes)
beans_params = (codes "beans", codes "6") ∷ (codes "filename", codes "hello") ∷ []

pub read_first_ten : read_params size_params no_query ≡ some first_ten
unfolding read_params read_param with_size equal stoi to_size_t
read_first_ten = refl

read_but_six : read_params beans_params no_query ≡ some but_six
unfolding read_params read_param with_size equal stoi to_size_t
read_but_six = refl

abbrev pub all_of : Query
all_of = record { filename = codes "hello"; fict = 0; size_fict = 0 }

abbrev pub all_params : List (Bytes × Bytes)
all_params = (codes "filename", codes "hello") ∷ []

read_all_of : read_params all_params no_query ≡ some all_of
unfolding read_params read_param equal
read_all_of = refl

module _ (fs : FileSystem) (new : ℕ → Bytes) where
  listen_ends :
      (r : Request) (rs : List Request) (x : Response)
      → handle fs new r ≡ (x, false)
      → is_undefined x ≡ true
      → listen fs new (r ∷ rs) ≡ (x ∷ [], false)
  unfolding listen
  listen_ends r rs x h e = rw (h, e) refl

  listen_goes_on :
      (r : Request) (rs : List Request) (x : Response)
      → handle fs new r ≡ (x, false)
      → is_undefined x ≡ false
      → listen fs new (r ∷ rs) ≡ (x ∷ (listen fs new rs).0, (listen fs new rs).1)
  unfolding listen
  listen_goes_on r rs x h e = rw (h, e) refl

  root_request : Request
  root_request = record { path = codes "/"; params = [] }

  handle-root : handle fs new root_request ≡ (text (codes "Hello World!"), false)
  unfolding handle equal root_request
  handle-root = refl

  handle-get :
      (params : List (Bytes × Bytes))
      → handle fs new (get_request params) ≡ (file (get fs new params), false)
  unfolding handle equal get_request
  handle-get params = refl

  later_requests : List Request
  later_requests =
      get_request size_params
      ∷ get_request beans_params
      ∷ record { path = codes "/exit"; params = [] }
      ∷ []

  requests_are : requests ≡ root_request ∷ get_request all_params ∷ later_requests
  unfolding requests root_request later_requests get_request
  requests_are = refl

  listen_undefined :
      get fs new all_params ≡ undefined
      → listen fs new requests ≡ (text (codes "Hello World!") ∷ file undefined ∷ [], false)
  unfolding is_undefined
  listen_undefined h =
      let second =
        listen_ends (get_request all_params) later_requests (file undefined)
          (handle-get all_params ∙ ap (λ a. (file a, false)) h) refl in
      ap (listen fs new) requests_are
      ∙ listen_goes_on root_request (get_request all_params ∷ later_requests) _ handle-root refl
      ∙ ap (λ l. (text (codes "Hello World!") ∷ l.0, l.1)) second

-- The requests of the client, for a file `hello` that exists, is regular, opens, and has more than 10
-- bytes. At the second one, for the whole file, the server writes behind its block: behind it
-- nothing can be said of the run. The third and the fourth, made on their own, are answered, and the
-- client saves the first 10 bytes in one file, and all but the first 6 in the other. `new` gives as
-- many bytes as it is asked for.
pub listen-files :
    (fs : FileSystem) (new : ℕ → Bytes) (path bytes r₂ : Bytes)
    → ((n : ℕ) → length (new n) ≡ n)
    → recv_file_path fs (codes "hello") ≡ some path
    → fs.exists path ≡ true
    → fs.is_regular_file path ≡ true
    → fs.contents path ≡ some bytes
    → 10 < length bytes
    → (listen fs new requests ≡ (text (codes "Hello World!") ∷ file undefined ∷ [], false))
      × ((d e : Content) × (get fs new size_params ≡ content d)
          × (get fs new beans_params ≡ content e)
          × (files r₂ (sent_of d) (sent_of e)
              ≡ (codes "hello-r2", r₂)
                ∷ (codes "hello-r3", take 10 bytes)
                ∷ (codes "hello-r4", drop 6 bytes)
                ∷ []))
unfolding files
listen-files fs new path bytes r₂ sized found exists regular holds long =
    let more : 0 < length bytes = omega arith in
    let all =
      get-part_for fs new all_params all_of path bytes sized read_all_of found exists regular holds
        more in
    let d =
      get-part_for fs new size_params first_ten path bytes sized read_first_ten found exists regular
        holds more in
    let e =
      get-part_for fs new beans_params but_six path bytes sized read_but_six found exists regular
        holds more in
    let ten = length-take 10 bytes in
    let rest = length-drop 6 bytes in
    let whole : ltb (length bytes) (length bytes) ≡ false = ground arith in
    let ten_less : ltb (length (take 10 bytes)) (length bytes) ≡ true = lt→ltb _ _ (omega arith) in
    let ten_some : (length (take 10 bytes) == 0) ≡ false = ground arith in
    let rest_less : ltb (length (drop 6 bytes)) (length bytes) ≡ true = lt→ltb _ _ (omega arith) in
    let rest_some : (length (drop 6 bytes) == 0) ≡ false = ground arith in
    (
      listen_undefined fs new (all.2 ∙ rw whole refl),
      (
        d.0,
        e.0,
        d.2 ∙ rw (ten_less, ten_some) refl,
        e.2 ∙ rw (rest_less, rest_some) refl,
        λ i. (codes "hello-r2", r₂) ∷ (codes "hello-r3", d.1 i) ∷ (codes "hello-r4", e.1 i) ∷ [],
      ),
    )
