-- ===== src/Tests/Secure.antt =====
-- The TLS server of hw6 and the asynchronous server of hw4 at concrete inputs.
use cpp_network_homework.Prelude.{
  ◌≡◌, refl, true, false, Option, some, [], ◌∷◌, ◌++◌, arith, if◌then◌else◌, length, take, All,
  Bytes, codes, equal,
}
use cpp_network_homework.Qt.Stream.Wire.{wire}
use cpp_network_homework.Qt.Server.{Qt, Server}
use cpp_network_homework.Tls.{contains, welcome, construct, connections}
use cpp_network_homework.Tls.Settings.{sockets_of, construct-connections}
use cpp_network_homework.Async.{
  writing, Session, start, on_read, on_accept, accept_done, read_done, Reachable, started, steps,
}
use cpp_network_homework.Async.Service.{Served, service_of}
use cpp_network_homework.Async.Refined.{Reachable-Served}
use cpp_network_homework.Text.Decimal.{decimal}
use cpp_network_homework.Async.Port.{serves, main, main-decimal}
use cpp_network_homework.Async.Reach.{IsEcho, Reachable-IsEcho}

abbrev plain : Qt Bytes
plain = record {
  stream = wire;
  write = λ k b. (k ++ b, some (length b));
  parse = λ t. record { command = t; filename = []; fiction = []; size_fict = 0 };
  files = record {
    current = codes "/srv";
    exists = λ p. true;
    file_size = λ p. 3;
    opened = λ p. some (codes "xyz");
  };
}

abbrev fresh_server : Server Bytes
fresh_server = record { socket = []; shown = []; closed = false; hung = false }

abbrev pem_file : Bytes → Option Bytes
pem_file name = some (codes "pem")

close_is_no_match : contains (codes "close()" ∷ []) (codes "slotNewConnection()") ≡ false
unfolding contains equal
close_is_no_match = refl

construct-connections_example :
    (let w =
        connections plain
          (7 ∷ 8 ∷ [])
          (construct true pem_file (codes "close()" ∷ []) fresh_server) in
      (w.ssl.pending ≡ (if true then sockets_of pem_file (take 30 (7 ∷ 8 ∷ [])) else []))
      × (w.server ≡ (
          if true
          then record fresh_server { shown = fresh_server.shown ++ welcome }
          else fresh_server))
      × (w.reads ≡ false))
construct-connections_example =
    construct-connections plain true pem_file (codes "close()" ∷ []) fresh_server (7 ∷ 8 ∷ [])
      close_is_no_match

-- A session that has received two characters, and writes them.
two_characters : Reachable (record {
  sessions = (on_read (some (codes "hi")) start).0 ∷ [];
  exited = (on_read (some (codes "hi")) start).1;
})
unfolding on_accept
two_characters =
    steps (steps started (accept_done [] true))
      (read_done [] [] start (some (codes "hi")) (omega arith, omega arith) refl)

Reachable-IsEcho_example : All IsEcho ((on_read (some (codes "hi")) start).0 ∷ [])
Reachable-IsEcho_example = Reachable-IsEcho two_characters

Reachable-Served_example : Served (
    service_of (record {
      sessions = (on_read (some (codes "hi")) start).0 ∷ [];
      exited = (on_read (some (codes "hi")) start).1;
    }))
Reachable-Served_example = Reachable-Served two_characters

main-decimal_example : main (codes "server" ∷ decimal 54321 ∷ []) (λ p. true) ≡ serves 54321
main-decimal_example = main-decimal (codes "server") 54321 (λ p. true) (omega arith)

-- The session that has received two characters.
abbrev hi_session : Session
hi_session = record { phase = writing (codes "hi"); received = codes "hi"; sent = [] }
