-- ===== src/Http/Routes.antt =====
-- The routes and `main` of hw7/cpp_httplib/server.cpp, and `dump_headers`. httplib calls the handler
-- of a route for a request with its path, one request after another, and none after `stop`.
use cpp_network_homework.Prelude.{
  ℕ, ◌-◌, Bool, true, false, ◌||◌, List, [], ◌∷◌, ◌++◌, if◌then◌else◌, take, Bytes, codes, equal,
}
use cpp_network_homework.Text.{c_string}
use cpp_network_homework.Text.Number.{ℤ, Stoi, value, invalid_argument, out_of_range, stoi}
use cpp_network_homework.FileServer.Request.{FileSystem}
use cpp_network_homework.Http.{Answer, undefined, get}

-- What `snprintf` puts in `buf`, of `BUFSIZ` characters, its NUL among them.
abbrev pub bufsiz : ℕ
bufsiz = 8192

header_line : Bytes × Bytes → Bytes
header_line (name, text) =
    take (bufsiz - 1) (c_string name ++ (codes ": " ++ (c_string text ++ codes "\n")))

pub dump_headers : List (Bytes × Bytes) → Bytes
dump_headers [] = []
dump_headers (x ∷ headers) = header_line x ++ dump_headers headers

pub record Request : Type 0 where
  pub path : Bytes
  pub params : List (Bytes × Bytes)

pub data Response : Type 0 where
  text : Bytes → Response
  file : Answer → Response
  no_route : Response

-- Behind a write out of its block the program has no meaning.
unfoldable pub is_undefined : Response → Bool
is_undefined (text t) = false
is_undefined (file undefined) = true
is_undefined (file _) = false
is_undefined no_route = false

-- How the program ends: a failure, an exception that nothing catches, or the requests served.
pub data Ended : Type 0 where
  failure exception : Ended
  served : ℤ → List Response × Bool → Ended

module _ (fs : FileSystem) (fresh : ℕ → Bytes) where
  -- The response of the route, and whether its handler calls `svr.stop`.
  unfoldable pub handle : Request → Response × Bool
  handle r =
      if equal r.path (codes "/")
      then (text (codes "Hello World!"), false)
      else if equal r.path (codes "/exit")
      then (text (codes "exit"), true)
      else if equal r.path (codes "/get")
      then (file (get fs fresh r.params), false)
      else (no_route, false)

  -- `svr.listen`: the responses, and whether the server has been stopped. They end where the program
  -- has no meaning any more.
  unfoldable pub listen : List Request → List Response × Bool
  listen [] = ([], false)
  listen (r ∷ requests) =
      let more = listen requests in
      let (response, stop) = handle r in
      if stop || is_undefined response then (response ∷ [], stop) else (response ∷ more.0, more.1)

  listen_on : List Request → Stoi → Ended
  listen_on requests (value port) = served port (listen requests)
  listen_on requests invalid_argument = exception
  listen_on requests out_of_range = exception

  pub main : List Bytes → List Request → Ended
  main (program ∷ port ∷ []) requests = listen_on requests (stoi port)
  main _ requests = failure
