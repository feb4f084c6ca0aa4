-- ===== src/Tcp/Conversation.antt =====
-- The stream client of hw3/client/main.cpp with the server of hw3/server/main.cpp.
use cpp_network_homework.Prelude.{
  ◌≡◌, refl, ap, ap₂, ◌∙◌, true, List, [], ◌∷◌, ◌++◌, map, length, All, Bytes, concat,
}
use cpp_network_homework.Send.{Reply}
use cpp_network_homework.Tcp.{Received}
use cpp_network_homework.Tcp.Server.{ended, communicate}
use cpp_network_homework.Tcp.Server.Echo.{
  IsServed, IsEnd, arriving, answered, messages, communicate-echoes,
}
use cpp_network_homework.Tcp.Client.{going_on, talk}
use cpp_network_homework.Tcp.Client.Rounds.{
  Round, command_of, IsGoodRound, typed_in, sends_in, recvs_in, commands_in, answers_in,
  talk_rounds,
}

-- A round of the client, with the answers of `send` to the server's echo.
abbrev pub Exchange : Type 0
Exchange = Round × List Reply

-- The command is one message for the server, and the echo arrives, in whatever pieces, before the
-- client takes its next line.
abbrev pub IsExchange : Exchange → Type 0
IsExchange (r, served) =
    IsGoodRound r × IsServed (command_of r, served) × (concat r.pieces ≡ command_of r)

abbrev pub client_rounds : List Exchange → List Round
client_rounds = map (λ x. x.0)

abbrev pub server_rounds : List Exchange → List (Bytes × List Reply)
server_rounds = map (λ x. (command_of x.0, x.1))

All-IsGoodRound : (xs : List Exchange) → All IsExchange xs → All IsGoodRound (client_rounds xs)
All-IsGoodRound [] h = tt
All-IsGoodRound ((r, s) ∷ xs) ((good, served, echo), hs) = (good, All-IsGoodRound xs hs)

All-IsServed : (xs : List Exchange) → All IsExchange xs → All IsServed (server_rounds xs)
All-IsServed [] h = tt
All-IsServed ((r, s) ∷ xs) ((good, served, echo), hs) = (served, All-IsServed xs hs)

messages_commands :
    (xs : List Exchange) → concat (messages (server_rounds xs)) ≡ commands_in (client_rounds xs)
messages_commands [] = refl
messages_commands ((r, s) ∷ xs) = ap (λ t. command_of r ++ t) (messages_commands xs)

answers_commands :
    (xs : List Exchange)
    → All IsExchange xs
    → answers_in (client_rounds xs) ≡ commands_in (client_rounds xs)
answers_commands [] h = refl
answers_commands ((r, s) ∷ xs) ((good, served, echo), hs) = ap₂ ◌++◌ echo (answers_commands xs hs)

-- A whole conversation: every line of the client, stripped, goes to the server and comes back, and
-- what the client has printed after all rounds is exactly what the server has sent, which is what the
-- client has sent. Each line has text, and is a message that the server takes whole; both `send`
-- loops are served, however often they take less or fail; and each echo arrives before the next
-- line.
pub conversation_echoes :
    (xs : List Exchange) (input : Bytes) (e : Received)
    → All IsExchange xs
    → IsEnd e
    → let text = commands_in (client_rounds xs) in
      (talk (length (client_rounds xs)) (record {
        input = typed_in (client_rounds xs) input;
        sends = sends_in (client_rounds xs) [];
        recvs = recvs_in (client_rounds xs) [];
        wire = [];
        printed = [];
      })
        ≡ going_on (record { input = input; sends = []; recvs = []; wire = text; printed = text }))
      × (communicate (arriving (server_rounds xs) (e ∷ [])) [] (answered (server_rounds xs) [])
          ≡ ended true text [] [])
conversation_echoes xs input e h end =
    let rs = client_rounds xs in
    (
      talk_rounds rs input [] [] [] [] (All-IsGoodRound xs h)
          ∙ ap
              (λ t. going_on (record {
                input = input;
                sends = [];
                recvs = [];
                wire = commands_in rs;
                printed = t;
              }))
              (answers_commands xs h),
      communicate-echoes (server_rounds xs) e [] [] (All-IsServed xs h) end
          ∙ ap (λ t. ended true t [] []) (messages_commands xs),
    )
