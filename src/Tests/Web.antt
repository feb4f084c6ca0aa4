-- ===== src/Tests/Web.antt =====
-- The HTTP programs of hw7 at concrete inputs.
use cpp_network_homework.Prelude.{
  ℕ, ◌≡◌, refl, true, false, not, some, [], ◌∷◌, arith, ltb, ◌==◌, if◌then◌else◌, length, take,
  drop, replicate, length-replicate, codes,
}
use cpp_network_homework.Text.{c_string}
use cpp_network_homework.Text.Stream.{is_empty}
use cpp_network_homework.FileServer.Request.{
  FileSystem, starts_with, find_from, find, below_current, recv_file_path,
}
use cpp_network_homework.Http.{Content, undefined, refused, content, get}
use cpp_network_homework.Http.Client.{download}
use cpp_network_homework.Http.Client.Download.{download_lem}
use cpp_network_homework.Http.Transfer.{sent_of, get-part_for}
use cpp_network_homework.Http.Chunks.{part_for}
use cpp_network_homework.Http.Routes.{text, file, listen}
use cpp_network_homework.Http.Curl.{requests, files}
use cpp_network_homework.Http.Curl.Saved.{
  first_ten, size_params, beans_params, read_first_ten, listen-files,
}

abbrev long_file : FileSystem
long_file = record {
  current_path = codes "/srv";
  separ = b'/';
  weakly_canonical = λ p. p;
  exists = λ p. true;
  is_regular_file = λ p. true;
  contents = λ p. some (codes "content of hello");
}

hello_path : recv_file_path long_file (codes "hello") ≡ some (codes "/srv/hello")
unfolding recv_file_path below_current find find_from starts_with is_empty
hello_path = refl

download_lem_example :
    download (replicate 10000 0) (codes "ab" ∷ codes "c" ∷ [])
    ≡ some (codes "abc", c_string (codes "abc"))
download_lem_example =
    download_lem (replicate 10000 0) (codes "ab" ∷ codes "c" ∷ [])
      (length-replicate {A = ℕ} 10000 0)

get-part_for_example :
    (c : Content) × (sent_of c ≡ part_for first_ten (codes "content of hello"))
    × (get long_file (λ n. replicate n 0) size_params ≡ (
        if not (ltb (length (part_for first_ten (codes "content of hello"))) 16)
        then undefined
        else if length (part_for first_ten (codes "content of hello")) == 0
        then refused
        else content c))
get-part_for_example =
    get-part_for long_file (λ n. replicate n 0) size_params first_ten (codes "/srv/hello")
      (codes "content of hello") (λ n. length-replicate {A = ℕ} n 0) read_first_ten hello_path refl
      refl refl (omega arith)

listen-files_example :
    (listen long_file (λ n. replicate n 0) requests
      ≡ (text (codes "Hello World!") ∷ file undefined ∷ [], false))
    × ((d e : Content) × (get long_file (λ n. replicate n 0) size_params ≡ content d)
        × (get long_file (λ n. replicate n 0) beans_params ≡ content e)
        × (files [] (sent_of d) (sent_of e)
            ≡ (codes "hello-r2", [])
              ∷ (codes "hello-r3", take 10 (codes "content of hello"))
              ∷ (codes "hello-r4", drop 6 (codes "content of hello"))
              ∷ []))
listen-files_example =
    listen-files long_file (λ n. replicate n 0) (codes "/srv/hello") (codes "content of hello") []
      (λ n. length-replicate {A = ℕ} n 0) hello_path refl refl refl (omega arith)
