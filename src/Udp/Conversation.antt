-- ===== src/Udp/Conversation.antt =====
-- The datagram client of hw1/udp_client/main.cpp with the server of hw1/udp_server/main.cpp, over a
-- network that loses and reorders nothing.
use cpp_network_homework.Prelude.{
  ◌≤◌, ◌<◌, ◌≡◌, refl, sym, ap, ap₂, ◌∙◌, false, Option, some, List, [], ◌∷◌, ◌++◌, map, map-append,
  arith, leb, length, All, Bytes, codes, equal, equal_iff,
}
use cpp_network_homework.Text.{is_ws}
use cpp_network_homework.Text.Strip.{strip_left, keep, strip_right}
use cpp_network_homework.Text.Line.{stripped, stripped_again, IsLine}
use cpp_network_homework.Udp.Server.{Resolver, datagram, Sent, stopped, serve, nothing}
use cpp_network_homework.Udp.Server.Echo.{IsExit, IsPlain, echoes, arrive, serve_exit}
use cpp_network_homework.Udp.Client.{clip, left, is_exit_answer, chat}
use cpp_network_homework.Udp.Client.Chat.{sent_for, IsRound, typed, answers, commands, chat_leaves}

-- A line that the client does not cut: it is not empty after stripping, fits the buffer of the
-- server, and is not the word `exit`.
abbrev pub IsMessage : Bytes → Type 0
IsMessage l =
    IsLine l
    × (0 < length (stripped l))
    × (length (stripped l) ≤ 999)
    × (equal (stripped l) (codes "exit") ≡ false)

-- The lines with the answers of the server.
abbrev pub rounds_of : List Bytes → List (Bytes × Option Bytes)
rounds_of [] = []
rounds_of (l ∷ ls) = (l, some (stripped l)) ∷ rounds_of ls

abbrev pub texts_of : List Bytes → List Bytes
texts_of ls = map stripped ls

module _ {A : Type 0} (from : A) where
  abbrev pub from_client : List Bytes → List (A × Bytes)
  from_client ts = map (λ t. (from, t)) ts

  messages-IsPlain : (ls : List Bytes) → All IsMessage ls → All IsPlain (from_client (texts_of ls))
  messages-IsPlain [] h = tt
  messages-IsPlain (l ∷ ls) ((line, some_text, fits, other), hs) =
      ((fits, ap (λ t. equal t (codes "exit")) (stripped_again l) ∙ other), messages-IsPlain ls hs)

  echoes_messages :
      (ls : List Bytes)
      → All IsMessage ls
      → echoes (from_client (texts_of ls)) ≡ from_client (texts_of ls)
  echoes_messages [] h = refl
  echoes_messages (l ∷ ls) ((line, some_text, fits, other), hs) =
      echoes_one (stripped l) (from_client (texts_of ls)) some_text
      ∙ ap₂ (λ t ts. (from, t) ∷ ts) (stripped_again l) (echoes_messages ls hs)
    where
      echoes_one :
          (b : Bytes) (ds : List (A × Bytes))
          → 0 < length b
          → echoes ((from, b) ∷ ds) ≡ (from, stripped b) ∷ echoes ds
      echoes_one [] ds h = absurd (omega arith)
      echoes_one (c ∷ cs) ds h = refl

clip_short : (t : Bytes) → length t ≤ 999 → clip t ≡ t
unfolding clip
clip_short t h = let short : leb 1000 (length t) ≡ false = ground arith in rw short refl

commands_of : (ls : List Bytes) → All IsMessage ls → commands (rounds_of ls) ≡ texts_of ls
commands_of [] h = refl
commands_of (l ∷ ls) ((line, some_text, fits, other), hs) =
    ap₂ ◌∷◌ (clip_short (stripped l) fits) (commands_of ls hs)

rounds_of-IsRound : (ls : List Bytes) → All IsMessage ls → All IsRound (rounds_of ls)
unfolding is_exit_answer
rounds_of-IsRound [] h = tt
rounds_of-IsRound (l ∷ ls) ((line, some_text, fits, other), hs) =
    ((line, ground arith), rounds_of-IsRound ls hs)

-- What the client receives of the replies.
abbrev pub received : {A : Type 0} → List (A × Bytes) → List (Option Bytes)
received replies = map (λ p. some p.1) replies

answers_received :
    {A : Type 0} (from : A) (ls : List Bytes) (script : List (Option Bytes))
    → answers (rounds_of ls) script ≡ received (from_client from (texts_of ls)) ++ script
answers_received from [] script = refl
answers_received from (l ∷ ls) script =
    ap (◌∷◌ (some (stripped l))) (answers_received from ls script)

-- The client hears the answers to its lines, and then the word `exit`.
heard :
    {A : Type 0} (from : A) (ls : List Bytes) (replies : List (A × Bytes))
    → replies ≡ from_client from (texts_of ls) ++ ((from, codes "exit") ∷ [])
    → received replies ≡ answers (rounds_of ls) (some (codes "exit") ∷ [])
heard from ls replies e =
    ap received e
    ∙ (map-append (λ p. some p.1) (from_client from (texts_of ls)) _
        ∙ sym (answers_received from ls (some (codes "exit") ∷ [])))

exit_sent : (l : Bytes) → IsExit l → sent_for l ≡ codes "exit"
exit_sent l e =
    ap clip ((equal_iff (stripped l) (codes "exit")).0 e) ∙ clip_short (codes "exit") (omega arith)

arrive-append :
    {A : Type 0} (ds : List (A × Bytes)) (from : A) (t : Bytes)
    → arrive (ds ++ ((from, t) ∷ [])) [] ≡ arrive ds (datagram from t ∷ [])
arrive-append [] from t = refl
arrive-append ((a, b) ∷ ds) from t = ap (◌∷◌ (datagram a b)) (arrive-append ds from t)

-- A whole conversation: a client is given some lines, each with text of at most 999 bytes that is
-- not the word `exit`, and then a line with that word. It sends the text of each line, stripped;
-- the server sends exactly these texts back, in order and to the client, and stops; and on these
-- replies the client leaves, with every line up to the word sent and nothing behind it. The network
-- loses and reorders nothing.
pub conversation :
    {A I : Type 0} (r : Resolver A I) (from : A) (ls : List Bytes) (l rest : Bytes)
    → All IsMessage ls
    → IsLine l
    → IsExit l
    → let texts = texts_of ls ++ (codes "exit" ∷ []) in
      (sent : Sent A) × (serve r (arrive (from_client from texts) []) (nothing r) ≡ stopped sent [])
      × (sent.replies ≡ from_client from texts)
      × (chat (typed (rounds_of ls) (l ++ (b'\n' ∷ rest))) [] (received sent.replies) ≡ left texts)
conversation r from ls l rest h line e =
    let texts = texts_of ls ++ (codes "exit" ∷ []) in
    let texts = texts_of ls ++ (codes "exit" ∷ []) in
    let split : from_client from texts
        ≡ from_client from (texts_of ls) ++ ((from, codes "exit") ∷ []) =
      map-append (λ t. (from, t)) (texts_of ls) (codes "exit" ∷ []) in
    let (sent, stops, replies) =
      serve_exit r (from_client from (texts_of ls)) from (codes "exit") []
        (messages-IsPlain from ls h) (omega arith)
        (unfold equal strip_left strip_right keep is_ws in refl) in
    let served =
      replies ∙ ap (λ ds. ds ++ ((from, codes "exit") ∷ [])) (echoes_messages from ls h) in
    (
      sent,
      ap (λ ds. serve r (arrive ds []) (nothing r)) split
          ∙ (ap (λ s. serve r s (nothing r))
                (arrive-append (from_client from (texts_of ls)) from (codes "exit"))
              ∙ stops),
      served ∙ sym split,
      ap (λ a. chat (typed (rounds_of ls) (l ++ (b'\n' ∷ rest))) [] a)
            (heard from ls sent.replies served)
          ∙ (chat_leaves (rounds_of ls) l rest [] (rounds_of-IsRound ls h) line
              ∙ ap₂ (λ ts t. left (ts ++ (t ∷ []))) (commands_of ls h) (exit_sent l e)),
    )
