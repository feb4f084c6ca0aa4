-- ===== src/Tests/Streams.antt =====
-- The loops round `send` and the programs of hw3 at concrete inputs.
use cpp_network_homework.Prelude.{
  ◌≡◌, refl, true, false, some, List, [], ◌∷◌, ◌++◌, arith, All, Bytes, codes, concat,
}
use cpp_network_homework.Text.Strip.{strip_left, keep, strip_right}
use cpp_network_homework.Text.{is_ws}
use cpp_network_homework.Text.Number.{pos, value, stoi}
use cpp_network_homework.Send.{
  eintr, eagain, other, Reply, accepted, failed, returned, waiting, send_request, send_message,
  need_to_repeat, send_buffer,
}
use cpp_network_homework.Send.Deliver.{
  Serves, done, retries, takes, send_request_total, BufferSent, send_buffer-BufferSent,
  send_buffer_total,
}
use cpp_network_homework.Send.Retry.{send_failed}
use cpp_network_homework.Tcp.{received, refused, is_eintr}
use cpp_network_homework.Tcp.Server.{ended, communicate, success, main}
use cpp_network_homework.Tcp.Server.Echo.{IsServed, arriving, answered, messages, main_one_client}
use cpp_network_homework.Tcp.Conversation.{
  Exchange, IsExchange, client_rounds, server_rounds, conversation_echoes,
}
use cpp_network_homework.Tcp.Client.{clip_crlf, going_on, talk}
use cpp_network_homework.Tcp.Client.Rounds.{
  Round, IsGoodRound, typed_in, sends_in, recvs_in, commands_in, answers_in, talk_rounds,
}

-- `hello` in two parts, with an error between.
abbrev two_parts : List Reply
two_parts = accepted 2 ∷ failed eagain ∷ accepted 3 ∷ []

two_parts-Serves : Serves need_to_repeat 5 two_parts
unfolding need_to_repeat
two_parts-Serves =
    takes (omega arith) (omega arith)
      (retries (omega arith) refl (takes (omega arith) (omega arith) (done refl)))

two_parts-Serves_any : Serves (λ e. true) 5 two_parts
two_parts-Serves_any =
    takes (omega arith) (omega arith)
      (retries (omega arith) refl (takes (omega arith) (omega arith) (done refl)))

send_buffer-BufferSent_example :
    BufferSent (codes "hello") two_parts (send_buffer (codes "hello") two_parts)
send_buffer-BufferSent_example = send_buffer-BufferSent (codes "hello") two_parts

send_buffer_total_example :
    send_buffer (codes "hello") (two_parts ++ (accepted 1 ∷ []))
    ≡ returned true (codes "hello") (accepted 1 ∷ [])
send_buffer_total_example = send_buffer_total (codes "hello") (accepted 1 ∷ []) two_parts-Serves

send_request_total_example :
    send_request (codes "hello") (two_parts ++ []) ≡ returned true (codes "hello") []
send_request_total_example =
    send_request_total (codes "hello") [] (omega arith) two_parts-Serves_any

-- Two bytes are taken behind a call that was interrupted.
two_taken-Serves : Serves need_to_repeat 2 (failed eintr ∷ accepted 2 ∷ [])
two_taken-Serves =
    let again : need_to_repeat eintr ≡ true = unfold need_to_repeat in refl in
    retries (omega arith) again (takes (omega arith) (omega arith) (done refl))

send_failed_example :
    (send_request (codes "hello") (failed (other 32) ∷ failed eagain ∷ []) ≡ waiting [])
    × (send_message (codes "hello") (failed (other 32) ∷ failed eagain ∷ []) ≡ waiting [])
    × (send_buffer
          (codes "hello")
          ((failed eintr ∷ accepted 2 ∷ []) ++ (failed (other 32) ∷ failed (other 32) ∷ []))
        ≡ returned false (codes "he") (failed (other 32) ∷ []))
send_failed_example =
    send_failed (codes "hello") (failed (other 32) ∷ failed eagain ∷ [])
      (failed eintr ∷ accepted 2 ∷ []) (failed (other 32) ∷ []) 2 (other 32) (tt, (tt, tt))
      two_taken-Serves (omega arith) (unfold need_to_repeat in refl)

abbrev one_message : List (Bytes × List Reply)
one_message = (codes "hello", two_parts) ∷ []

one_message-IsServed : All IsServed one_message
one_message-IsServed = (
  (omega arith, omega arith, (refl, (refl, (refl, (refl, (refl, tt))))), two_parts-Serves_any),
  tt,
)

port_stoi : stoi (codes "80") ≡ value (pos 80)
unfolding stoi
port_stoi = refl

main_one_client_example :
    main
      (codes "server" ∷ codes "80" ∷ [])
      (some 3)
      (λ p. true)
      (some 4 ∷ some 5 ∷ [])
      (arriving one_message (received [] ∷ []))
      (answered one_message [])
    ≡ success (some 0 ∷ some 4 ∷ some 3 ∷ []) (concat (messages one_message))
main_one_client_example =
    main_one_client (codes "server") (codes "80") (pos 80) 3 4 (λ p. true) (some 5 ∷ []) one_message
      (received []) [] [] port_stoi refl one_message-IsServed tt

abbrev hello_round : Round
hello_round = record {
  line = codes "hello ";
  replies = two_parts;
  pieces = codes "he" ∷ codes "llo" ∷ [];
  last = refused eagain;
}

hello_round-IsGoodRound : All IsGoodRound (hello_round ∷ [])
unfolding strip_left strip_right keep is_ws clip_crlf is_eintr
hello_round-IsGoodRound = (
  (
    ((refl, (refl, (refl, (refl, (refl, (refl, tt)))))), omega arith),
    omega arith,
    two_parts-Serves_any,
    (omega arith, (omega arith, tt)),
    refl,
  ),
  tt,
)

talk_rounds_example :
    talk 1 (record {
      input = typed_in (hello_round ∷ []) [];
      sends = sends_in (hello_round ∷ []) [];
      recvs = recvs_in (hello_round ∷ []) [];
      wire = [];
      printed = [];
    })
    ≡ going_on (record {
      input = [];
      sends = [];
      recvs = [];
      wire = commands_in (hello_round ∷ []);
      printed = answers_in (hello_round ∷ []);
    })
talk_rounds_example = talk_rounds (hello_round ∷ []) [] [] [] [] [] hello_round-IsGoodRound

abbrev one_exchange : List Exchange
one_exchange = (hello_round, two_parts) ∷ []

one_exchange-IsExchange : All IsExchange one_exchange
unfolding strip_left strip_right keep is_ws clip_crlf
one_exchange-IsExchange = ((hello_round-IsGoodRound.0, one_message-IsServed.0, refl), tt)

conversation_echoes_example :
    let text = commands_in (client_rounds one_exchange) in
    (talk 1 (record {
      input = typed_in (client_rounds one_exchange) [];
      sends = sends_in (client_rounds one_exchange) [];
      recvs = recvs_in (client_rounds one_exchange) [];
      wire = [];
      printed = [];
    })
      ≡ going_on (record { input = []; sends = []; recvs = []; wire = text; printed = text }))
    × (communicate
          (arriving (server_rounds one_exchange) (received [] ∷ []))
          []
          (answered (server_rounds one_exchange) [])
        ≡ ended true text [] [])
conversation_echoes_example =
    conversation_echoes one_exchange [] (received []) one_exchange-IsExchange tt
