-- ===== src/Tcp/Server/Echo.antt =====
-- What the server of hw3 sends back, and whom it serves.
use cpp_network_homework.Prelude.{
  ℕ, ◌≤◌, ◌<◌, ◌≡◌, refl, sym, ap, ◌∙◌, Bool, true, false, Option, some, List, [], ◌∷◌, ◌++◌,
  append-nil, append_assoc, arith, ◌==◌, length, All, Bytes, concat,
}
use cpp_network_homework.Text.{c_string}
use cpp_network_homework.Text.Number.{ℤ, value, stoi, to_uint16}
use cpp_network_homework.Send.{Reply, returned, send_message}
use cpp_network_homework.Send.Deliver.{Serves, send_request_total, send_message-send_request}
use cpp_network_homework.Socket.{
  Socket, opened, close, close_if_opened, open_with, socket_open, socket_adopt, move_assign,
  destroy,
}
use cpp_network_homework.Tcp.{Received, received, refused, is_eintr}
use cpp_network_homework.Tcp.Server.{
  ended, after_message, communicate, success, Loop, leave, assign_accepted, after_client,
  accept_loop, initial, run_on, main,
}

-- A message of the client, with the answers of `send` to its echo: at least one character, none of
-- them NUL, at most 999, the size of the buffer less 1.
abbrev pub IsServed : Bytes × List Reply → Type 0
IsServed (m, replies) =
    (0 < length m)
    × (length m ≤ 999)
    × All (λ c. (c == 0) ≡ false) m
    × Serves (λ e. true) (length m) replies

-- What ends the connection: the end of the stream, or an error other than `EINTR`.
abbrev pub IsEnd : Received → Type 0
IsEnd (received []) = Unit
IsEnd (received (c ∷ cs)) = ⊥
IsEnd (refused e) = is_eintr e ≡ false

abbrev pub arriving : List (Bytes × List Reply) → List Received → List Received
arriving [] script = script
arriving ((m, r) ∷ rounds) script = received m ∷ arriving rounds script

abbrev pub answered : List (Bytes × List Reply) → List Reply → List Reply
answered [] more = more
answered ((m, r) ∷ rounds) more = r ++ answered rounds more

abbrev pub messages : List (Bytes × List Reply) → List Bytes
messages [] = []
messages ((m, r) ∷ rounds) = m ∷ messages rounds

c_string_whole : (s : Bytes) → All (λ c. (c == 0) ≡ false) s → c_string s ≡ s
unfolding c_string
c_string_whole [] h = refl
c_string_whole (c ∷ cs) (h, t) = rw h (ap (◌∷◌ c) (c_string_whole cs t))

send_message_whole :
    (m : Bytes) (r more : List Reply)
    → IsServed (m, r)
    → send_message (c_string m) (r ++ more) ≡ returned true m more
send_message_whole m r more (positive, fits, text, serves) =
    rw (c_string_whole m text)
      (send_message-send_request m (r ++ more) ∙ send_request_total m more positive serves)

communicate_ends :
    (e : Received) (script : List Received) (wire : Bytes) (sends : List Reply)
    → IsEnd e
    → communicate (e ∷ script) wire sends ≡ ended true wire script sends
unfolding communicate
communicate_ends (received []) script wire sends h = refl
communicate_ends (received (c ∷ cs)) script wire sends h = absurd h
communicate_ends (refused e) script wire sends h = rw h refl

communicate_message :
    (m : Bytes) (r : List Reply) (script : List Received) (wire : Bytes) (more : List Reply)
    → IsServed (m, r)
    → communicate (received m ∷ script) wire (r ++ more) ≡ communicate script (wire ++ m) more
unfolding communicate after_message
communicate_message [] r script wire more h = absurd (omega arith)
communicate_message (c ∷ cs) r script wire more h = rw (send_message_whole (c ∷ cs) r more h) refl

communicate-All :
    (rounds : List (Bytes × List Reply)) (e : Received) (script : List Received) (wire : Bytes)
    (more : List Reply)
    → All IsServed rounds
    → IsEnd e
    → communicate (arriving rounds (e ∷ script)) wire (answered rounds more)
      ≡ ended true (wire ++ concat (messages rounds)) script more
communicate-All [] e script wire more h end =
    communicate_ends e script wire more end
    ∙ ap (λ w. ended true w script more) (sym (append-nil wire))
communicate-All ((m, r) ∷ rounds) e script wire more (h, t) end =
    communicate_message m r (arriving rounds (e ∷ script)) wire (answered rounds more) h
    ∙ communicate-All rounds e script (wire ++ m) more t end
    ∙ ap (λ w. ended true w script more) (append_assoc wire m (concat (messages rounds)))

-- Each message that the client sends, whole and without NUL, is sent back whole, in order, however
-- often `send` takes less than it is given or fails; when the stream ends, or `recv` fails other
-- than by `EINTR`, `communicate` returns true, and reads no further.
pub communicate-echoes :
    (rounds : List (Bytes × List Reply)) (e : Received) (script : List Received) (more : List Reply)
    → All IsServed rounds
    → IsEnd e
    → communicate (arriving rounds (e ∷ script)) [] (answered rounds more)
      ≡ ended true (concat (messages rounds)) script more
communicate-echoes rounds e script more h end = communicate-All rounds e script [] more h end

accept_loop_exit :
    (sock : Socket) (l : Loop) (queue : List (Option ℕ)) (recvs : List Received)
    (sends : List Reply)
    → l.exit_state ≡ true
    → accept_loop sock l queue recvs sends ≡ success (leave sock l) l.wire
unfolding accept_loop
accept_loop_exit sock l [] recvs sends h = rw h refl
accept_loop_exit sock l (a ∷ queue) recvs sends h = rw h refl

-- With a port that is a number, a socket that opens and a `bind` that takes the port, the server
-- takes one client, echoes its messages, and returns when that client has gone: connections that
-- wait in the queue are not accepted. The calls of `close` are three: of descriptor 0, which
-- `newsock` was made of, when the client's is assigned to it, of the client's, and of the
-- listening one. The messages are whole and without NUL, and `send` serves each echo.
pub main_one_client :
    (program port : Bytes) (n : ℤ) (listening client : ℕ) (binds : ℕ → Bool)
    (queue : List (Option ℕ)) (rounds : List (Bytes × List Reply)) (e : Received)
    (script : List Received) (more : List Reply)
    → stoi port ≡ value n
    → binds (to_uint16 n) ≡ true
    → All IsServed rounds
    → IsEnd e
    → main
        (program ∷ port ∷ [])
        (some listening)
        binds
        (some client ∷ queue)
        (arriving rounds (e ∷ script))
        (answered rounds more)
      ≡ success (some 0 ∷ some client ∷ some listening ∷ []) (concat (messages rounds))
unfolding main run_on accept_loop after_client initial leave assign_accepted move_assign socket_open
    socket_adopt destroy opened close_if_opened open_with close
main_one_client program port n listening client binds queue rounds e script more p b h end =
    let a = assign_accepted (some client) (initial []) in
    rw (p, b, communicate-echoes rounds e script more h end)
      (accept_loop_exit (socket_adopt (some listening))
        (record a { exit_state = true; wire = concat (messages rounds) }) queue script more refl)
