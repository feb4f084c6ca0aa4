-- ===== src/Tests/Datagrams.antt =====
-- The datagram programs at concrete inputs.
use mathlib.Core.List.Permᴰ as Perm
use mathlib.Core.Quot
use cpp_network_homework.Prelude.{
  ℕ, ◌≡◌, refl, none, some, List, [], ◌∷◌, ◌++◌, arith, ◌==◌, All, Bytes, codes, equal,
}
use cpp_network_homework.Text.{is_ws}
use cpp_network_homework.Text.Strip.{strip_left, keep, strip_right}
use cpp_network_homework.Text.Line.{IsLine}
use cpp_network_homework.Udp.Server.{Resolver, datagram, Sent, stopped, waiting, serve, nothing}
use cpp_network_homework.Udp.Server.Echo.{IsExit, IsPlain, echoes, arrive}
use cpp_network_homework.Udp.Server
use cpp_network_homework.Udp.Client.{left, chat}
use cpp_network_homework.Udp.Server.Clients.{of_client, serve_exit-of_client}
use cpp_network_homework.Udp.Server.Reordered.{Bag, echo_all, serve-echo_all}
use cpp_network_homework.Udp.Conversation.{
  IsMessage, rounds_of, texts_of, from_client, received, conversation,
}
use cpp_network_homework.Udp.Client.Chat.{typed}

abbrev no_names : Resolver ℕ ℕ
no_names = record {
  ntop = λ a. codes "127.0.0.1";
  port_of = λ a. a;
  aton = λ b. some 1;
  name_of = λ i. none;
}

abbrev two_datagrams : List (ℕ × Bytes)
two_datagrams = (5, codes " hi\n") ∷ (6, []) ∷ []

two_datagrams-IsPlain : All IsPlain two_datagrams
unfolding equal strip_left strip_right keep is_ws
two_datagrams-IsPlain = ((omega arith, refl), ((omega arith, refl), tt))

datagram_leaves : IsExit (codes " exit\n")
unfolding equal strip_left strip_right keep is_ws
datagram_leaves = refl

serve_exit-of_client_example :
    (sent : Sent ℕ) × (serve no_names
        (arrive two_datagrams (datagram 7 (codes " exit\n") ∷ []))
        (nothing no_names)
      ≡ Server.stopped sent [])
    × ((a : ℕ)
        → of_client ◌==◌ a sent.replies
          ≡ echoes (of_client ◌==◌ a (two_datagrams ++ ((7, codes " exit\n") ∷ []))))
serve_exit-of_client_example =
    serve_exit-of_client ◌==◌ no_names two_datagrams 7 (codes " exit\n") [] two_datagrams-IsPlain
      (omega arith) datagram_leaves

-- The same datagrams in the other order.
abbrev swapped_bag : Bag ℕ
swapped_bag = Quot.mk ((6, []) ∷ (5, codes " hi\n") ∷ [])

serve-echo_all_example :
    (sent : Sent ℕ) × (serve no_names (arrive two_datagrams []) (nothing no_names)
      ≡ Server.waiting sent)
    × (Quot.mk sent.replies ≡ echo_all swapped_bag)
serve-echo_all_example =
    serve-echo_all no_names swapped_bag two_datagrams (Quot.sound (Perm.swap refl refl))
      two_datagrams-IsPlain

hello-IsLine : IsLine (codes " hello ")
hello-IsLine = ((refl, (refl, (refl, (refl, (refl, (refl, (refl, tt))))))), omega arith)

exit_IsLine : IsLine (codes " exit ")
exit_IsLine = ((refl, (refl, (refl, (refl, (refl, (refl, tt)))))), omega arith)

line_leaves : IsExit (codes " exit ")
unfolding equal strip_left strip_right keep is_ws
line_leaves = refl

hello-IsMessage : IsMessage (codes " hello ")
unfolding equal strip_left strip_right keep is_ws
hello-IsMessage = (hello-IsLine, omega arith, omega arith, refl)

conversation_example :
    let texts = texts_of (codes " hello " ∷ []) ++ (codes "exit" ∷ []) in
    (sent : Sent ℕ) × (serve no_names (arrive (from_client 5 texts) []) (nothing no_names)
      ≡ Server.stopped sent [])
    × (sent.replies ≡ from_client 5 texts)
    × (chat
          (typed (rounds_of (codes " hello " ∷ [])) (codes " exit " ++ (b'\n' ∷ [])))
          []
          (received sent.replies)
        ≡ left texts)
conversation_example =
    conversation no_names 5 (codes " hello " ∷ []) (codes " exit ") [] (hello-IsMessage, tt)
      exit_IsLine line_leaves
