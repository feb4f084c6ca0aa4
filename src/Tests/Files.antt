-- ===== src/Tests/Files.antt =====
-- The file servers of hw4 and hw7 at concrete inputs.
use cpp_network_homework.Prelude.{
  ◌<◌, ◌≡◌, refl, ap, ◌↔◌, ◌⊎◌, true, some, List, [], ◌∷◌, ◌++◌, map, arith, length, replicate,
  Bytes, codes, equal,
}
use cpp_network_homework.Text.{is_ws, c_string}
use cpp_network_homework.Text.Number.{is_digit, digits_value}
use cpp_network_homework.Text.Stream.{is_empty, parse_command}
use cpp_network_homework.Text.Command.{IsWord, IsDecimal, parse_command_word}
use cpp_network_homework.Send.{Reply, accepted}
use cpp_network_homework.Send.Deliver.{done, takes}
use cpp_network_homework.Send
use cpp_network_homework.FileServer.Transceiver.{Transceiver, start_at, amount, limited}
use cpp_network_homework.FileServer.Transceiver.Rounds.{ServesAll}
use cpp_network_homework.FileServer.Transceiver.Blocks.{buffers_for}
use cpp_network_homework.FileServer.Request.{
  FileSystem, starts_with, find_from, find, below_current, recv_file_path,
}
use cpp_network_homework.FileServer.Request.Sending.{Holds}
use cpp_network_homework.FileServer.Session.{Turn, echoed, fict_of, stopped, running, serve}
use cpp_network_homework.FileServer.Session.Visit.{Visit, turn_of, IsVisit, Replied, serve_visit}
use cpp_network_homework.FileServer.Session.Get.{IsText, asked, serve_silent}
use cpp_network_homework.Http.{Query, load}
use cpp_network_homework.Http.Overflow.{load_bounds}

abbrev three_bytes : Transceiver
three_bytes = record { fict = 2; size_fict = 3 }

abbrev one_buffer : List (List Reply)
one_buffer = (accepted 4096 ∷ []) ∷ []

one_buffer-ServesAll : ServesAll 4096 one_buffer
one_buffer-ServesAll = (takes (omega arith) (omega arith) (done (omega arith)), tt)

-- A file system in which every path is a file with these bytes.
abbrev all_files : FileSystem
all_files = record {
  current_path = codes "/srv";
  separ = b'/';
  weakly_canonical = λ p. p;
  exists = λ p. true;
  is_regular_file = λ p. true;
  contents = λ p. some (codes "content");
}

all_files-Holds : Holds all_files (codes "a.txt") (codes "/srv/a.txt") (codes "content")
unfolding recv_file_path below_current find find_from starts_with is_empty
all_files-Holds = (refl, refl, refl, refl)

abbrev get_line : Bytes
get_line = codes "get a.txt size 3"

name-IsWord : IsWord (codes "a.txt")
unfolding is_ws
name-IsWord = (refl, (refl, (refl, (refl, (refl, tt)))))

size-IsWord : IsWord (codes "size")
unfolding is_ws
size-IsWord = (refl, (refl, (refl, (refl, tt))))

three_IsDecimal : IsDecimal (codes "3")
unfolding is_digit
three_IsDecimal = (refl, tt)

get_line-IsText : IsText get_line
get_line-IsText = (
  refl,
  (
    refl,
    (
      refl,
      (
        refl,
        (
          refl,
          (
            refl,
            (refl, (refl, (refl, (refl, (refl, (refl, (refl, (refl, (refl, (refl, tt)))))))))),
          ),
        ),
      ),
    ),
  ),
)

get_counts : length one_buffer ≡ buffers_for (asked (codes "size") (codes "3")) 7
unfolding fict_of equal digits_value amount limited start_at
get_counts = refl

abbrev one_visit : Visit
one_visit = record {
  name = codes "a.txt";
  fiction = codes "size";
  digits = codes "3";
  path = codes "/srv/a.txt";
  bytes = codes "content";
  taken = 16;
  served = one_buffer;
  more = [];
}

one_visit-IsVisit : IsVisit all_files one_visit
one_visit-IsVisit = (
  name-IsWord,
  size-IsWord,
  three_IsDecimal,
  unfold digits_value in omega arith,
  (get_line-IsText, omega arith),
  all_files-Holds,
  one_buffer-ServesAll,
  get_counts,
)

abbrev exit_turn : Turn
exit_turn = record { received = codes "exit"; echo = accepted 4; replies = [] }

exit_command : (parse_command (c_string (codes "exit"))).command ≡ codes "exit"
exit_command =
    unfold c_string is_ws in
    ap (λ c. c.command) (parse_command_word (codes "exit") (refl, (refl, (refl, (refl, tt)))))

serve_visit_example :
    (out : Bytes) × (serve all_files [] (map turn_of (one_visit ∷ []) ++ (exit_turn ∷ []))
      ≡ stopped (out ++ echoed (c_string (codes "exit")) (accepted 4)) [])
    × Replied (one_visit ∷ []) out
serve_visit_example =
    serve_visit all_files (one_visit ∷ []) exit_turn [] (one_visit-IsVisit, tt) (omega arith)
      (omega arith) exit_command

abbrev silent_turn : Turn
silent_turn = record { received = []; echo = accepted 0; replies = [] }

serve_silent_example : serve all_files [] (silent_turn ∷ silent_turn ∷ []) ≡ running []
serve_silent_example = serve_silent all_files (silent_turn ∷ silent_turn ∷ []) [] (refl, (refl, tt))

abbrev last_bytes : Query
last_bytes = record { filename = codes "a.txt"; fict = 1; size_fict = 3 }

load_bounds_example :
    (let c = load (λ n. replicate n 7) last_bytes (codes "content") in
      (c.nul_at < c.allocated)
      ↔ ((last_bytes.fict ≡ 1) × (0 < 3) ⊎ (last_bytes.fict ≡ 2) × (3 < 7)))
load_bounds_example = load_bounds (λ n. replicate n 7) last_bytes (codes "content") (omega arith)
