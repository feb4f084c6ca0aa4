-- ===== src/Http/Curl.antt =====
-- hw7/curl_client/main.cpp: its five requests, and the files that it writes. The library cpr makes
-- the requests; the parameters of a request stand in the order in which httplib keeps them.
pub mod Saved
use cpp_network_homework.Prelude.{List, [], ◌∷◌, Bytes, codes}
use cpp_network_homework.Http.Routes.{Request}

pub get_request : List (Bytes × Bytes) → Request
get_request params = record { path = codes "/get"; params = params }

unfoldable pub requests : List Request
unfolding get_request
requests =
    record { path = codes "/"; params = [] }
    ∷ get_request ((codes "filename", codes "hello") ∷ [])
    ∷ get_request ((codes "filename", codes "hello") ∷ (codes "size", codes "10") ∷ [])
    ∷ get_request ((codes "beans", codes "6") ∷ (codes "filename", codes "hello") ∷ [])
    ∷ record { path = codes "/exit"; params = [] }
    ∷ []

-- The names and the bytes of the files, for the texts of the second to the fourth response.
pub files : Bytes → Bytes → Bytes → List (Bytes × Bytes)
files r2 r3 r4 = (codes "hello-r2", r2) ∷ (codes "hello-r3", r3) ∷ (codes "hello-r4", r4) ∷ []
