-- ===== src/Tests/Wrappers.antt =====
-- The interceptor at concrete inputs.
use cpp_network_homework.Prelude.{
  ◌≡◌, refl, true, none, some, List, [], ◌∷◌, ◌++◌, map, arith, codes,
}
use cpp_network_homework.Intercept.{State, close, write, send, sendto}
use cpp_network_homework.Intercept.Logging.{
  open_file, Output, writes, sends, call_of, outputs, all_logged, outputs_open,
}
use cpp_network_homework.Intercept.Dangling.{close_then_output}

-- The socket 4 is tracked, and the log is open.
abbrev tracking : State
tracking = record {
  socket_fd = some 4;
  log_file = some (record { is_open = true; text = [] });
  passed = [];
  shown = [];
}

abbrev two_outputs : List Output
two_outputs = writes (some 4) (some (codes "hello")) ∷ sends (some 4) (some (codes "x")) 2 ∷ []

outputs_open_example :
    outputs two_outputs tracking
    ≡ some (record tracking {
      log_file = some (open_file ([] ++ all_logged two_outputs));
      shown = [] ++ all_logged two_outputs;
      passed = [] ++ map call_of two_outputs;
    })
outputs_open_example = outputs_open two_outputs tracking [] refl

close_then_output_example :
    (st' : State) × (close (some 4) tracking ≡ some st')
    × (write (some 1) (some (codes "hello")) st' ≡ none)
    × (send (some 1) (some (codes "hello")) 0 st' ≡ none)
    × (sendto (some 1) (some (codes "hello")) 0 [] 16 st' ≡ none)
close_then_output_example =
    close_then_output 4 tracking [] (some 1) (codes "hello") [] 0 16 refl refl (omega arith)
