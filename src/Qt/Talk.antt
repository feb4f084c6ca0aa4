-- ===== src/Qt/Talk.antt =====
-- The client of hw5/qt5_tcp_client/TcpClient.cpp with the server of
-- hw5/qt5_tcp_server/TcpServer.cpp, for messages that ask for no file.
use cpp_network_homework.Prelude.{
  ◌≡◌, refl, sym, ap, ap₂, subst, ◌∙◌, inl, inr, false, not, ◌&&◌, List, [], ◌∷◌, ◌++◌, append-nil,
  append_assoc, arith, if◌then◌else◌, Bool-cases, All, Bytes, codes, equal, equal_iff, concat,
}
use cpp_network_homework.Text.Stream.{is_empty}
use cpp_network_homework.Qt.Stream.{Text, DataStream, IsQt}
use cpp_network_homework.Qt.Frame.{frame, frames, IsShort}
use cpp_network_homework.Qt.Reader.{Reader, feed_open}
use cpp_network_homework.Qt.Reader.Reassembly.{OnlyLast}
use cpp_network_homework.Qt.Server.{Request, Qt, Server, react}
use cpp_network_homework.Qt.Server
use cpp_network_homework.Qt.Client
use cpp_network_homework.Qt.Server.Replies.{
  IsWhole, echo_of, exit_reply, reply_to, replies_to, leaves_server, sent-acts,
  slot_read_client-acts,
}
use cpp_network_homework.Qt.Client.{Local, Client}
use cpp_network_homework.Qt.Client.Receive.{
  IsLineMessage, lines_of, leaves_client, slot_ready_read-lines_open,
}

-- The command to leave, sent back.
exit_words : Request → List Text
exit_words c = if equal c.command (codes "exit") then c.command ∷ [] else []

-- The messages that the server sends for some messages.
answers_to : {K : Type 0} → Qt K → List Text → List Text
answers_to qt [] = []
answers_to qt (m ∷ ms) = (echo_of m ∷ exit_words (qt.parse m)) ++ answers_to qt ms

-- The lines that the window of the client gains.
unfoldable pub talk_lines : {K : Type 0} → Qt K → List Text → List Text
talk_lines qt [] = []
talk_lines qt (m ∷ ms) =
    (echo_of m
      ∷ (if equal (qt.parse m).command (codes "exit")
          then (qt.parse m).command ∷ codes "Breaking" ∷ []
          else []))
    ++ talk_lines qt ms

-- A message that asks for no file, and whose echo fits its size field too.
abbrev pub IsTalk : {K : Type 0} → Qt K → Text → Type 0
IsTalk qt m =
    IsShort m
    × IsShort (echo_of m)
    × ((equal (qt.parse m).command (codes "get") && not (is_empty (qt.parse m).filename)) ≡ false)

frames-append :
    (q : DataStream) (ms ns : List Text) → frames q (ms ++ ns) ≡ frames q ms ++ frames q ns
frames-append q [] ns = refl
frames-append q (m ∷ ms) ns =
    ap (λ t. frame q m ++ t) (frames-append q ms ns)
    ∙ sym (append_assoc (frame q m) (frames q ms) (frames q ns))

lines_of-append : (ms ns : List Text) → lines_of (ms ++ ns) ≡ lines_of ms ++ lines_of ns
lines_of-append [] ns = refl
lines_of-append (m ∷ ms) ns =
    let first = if equal m (codes "exit") then m ∷ codes "Breaking" ∷ [] else m ∷ [] in
    ap (λ t. first ++ t) (lines_of-append ms ns)
    ∙ sym (append_assoc first (lines_of ms) (lines_of ns))

exit_IsShort : (t : Text) → t ≡ codes "exit" → IsShort t
exit_IsShort t e = subst IsShort (sym e) (ground arith)

exit_words-IsLineMessage : (c : Request) → All IsLineMessage (exit_words c)
unfolding exit_words
exit_words-IsLineMessage c = elim (Bool-cases (equal c.command (codes "exit"))) [
  | inl e ↦
      let word = (equal_iff c.command (codes "exit")).0 e in
      rw e (
        (exit_IsShort c.command word, ap (λ t. equal t (codes "get")) word ∙ unfold equal in refl),
        tt,
      )
  | inr e ↦ rw e tt
]

lines_of-exit_words :
    (c : Request)
    → lines_of (exit_words c)
      ≡ (if equal c.command (codes "exit") then c.command ∷ codes "Breaking" ∷ [] else [])
unfolding exit_words
lines_of-exit_words c = elim (Bool-cases (equal c.command (codes "exit"))) [
  | inl e ↦ simp e
  | inr e ↦ rw e refl
]

All-append :
    (ms ns : List Text) → All IsLineMessage ms → All IsLineMessage ns → All IsLineMessage (ms ++ ns)
All-append [] ns h k = k
All-append (m ∷ ms) ns (h, hs) k = (h, All-append ms ns hs k)

module _ {K : Type 0} (qt : Qt K) where
  frames-exit_words : (c : Request) → frames qt.stream (exit_words c) ≡ exit_reply qt c
  unfolding exit_words
  frames-exit_words c = elim (Bool-cases (equal c.command (codes "exit"))) [
    | inl e ↦ rw e (append-nil (frame qt.stream c.command))
    | inr e ↦ rw e refl
  ]

  -- A message that asks for no file is answered by messages.
  reply_frames :
      (m : Text)
      → IsTalk qt m
      → reply_to qt m ≡ frames qt.stream (echo_of m ∷ exit_words (qt.parse m))
  reply_frames m (short, echo, no_file) = rw no_file (
      ap (λ t. frame qt.stream (echo_of m) ++ t)
        (append-nil (exit_reply qt (qt.parse m)) ∙ sym (frames-exit_words (qt.parse m))))

  replies_frames :
      (ms : List Text) → All (IsTalk qt) ms → replies_to qt ms ≡ frames qt.stream (answers_to qt ms)
  unfolding answers_to
  replies_frames [] h = refl
  replies_frames (m ∷ ms) (h, hs) =
      ap₂ ◌++◌ (reply_frames m h) (replies_frames ms hs)
      ∙ sym (frames-append qt.stream (echo_of m ∷ exit_words (qt.parse m)) (answers_to qt ms))

  answers-IsLineMessage :
      (ms : List Text) → All (IsTalk qt) ms → All IsLineMessage (answers_to qt ms)
  unfolding answers_to equal
  answers-IsLineMessage [] h = tt
  answers-IsLineMessage (m ∷ ms) ((short, echo, no_file), hs) =
      All-append (echo_of m ∷ exit_words (qt.parse m)) (answers_to qt ms)
        ((echo, refl), exit_words-IsLineMessage (qt.parse m)) (answers-IsLineMessage ms hs)

  lines_of-answers : (ms : List Text) → lines_of (answers_to qt ms) ≡ talk_lines qt ms
  unfolding answers_to talk_lines equal
  lines_of-answers [] = refl
  lines_of-answers (m ∷ ms) =
      lines_of-append (echo_of m ∷ exit_words (qt.parse m)) (answers_to qt ms)
      ∙ ap₂ (λ s t. (echo_of m ∷ s) ++ t) (lines_of-exit_words (qt.parse m)) (lines_of-answers ms)

  All-IsShort : (ms : List Text) → All (IsTalk qt) ms → All IsShort ms
  All-IsShort [] h = tt
  All-IsShort (m ∷ ms) ((short, echo, no_file), hs) = (short, All-IsShort ms hs)

-- The word `exit` is the last answer, if the command to leave is the last message.
answers-OnlyLast :
    {K : Type 0} (qt : Qt K) (ms : List Text)
    → OnlyLast (leaves_server qt) ms
    → OnlyLast leaves_client (answers_to qt ms)
unfolding answers_to exit_words equal
answers-OnlyLast qt [] o = tt
answers-OnlyLast qt (m ∷ []) o = elim (Bool-cases (leaves_server qt m)) [
  | inl e ↦ rw e (refl, tt)
  | inr e ↦ rw e tt
]
answers-OnlyLast qt (m ∷ n ∷ ms) (h, o) = rw h (refl, answers-OnlyLast qt (n ∷ ms) o)

-- A whole talk: any messages of a client that ask for no file, of which only the last may be the
-- command to leave, and what the server answers, each cut into pieces in any way. The server sends
-- the answers to all of them, in order, and the client shows for each its echo, and behind the
-- command to leave that word and `Breaking`; both have read everything. A window that is closed
-- ends its program: neither is closed before, and the slots are not called behind that. Messages and
-- echoes fit their size fields, the socket takes whole blocks, and both programs have the same
-- `QDataStream`, which reads back what it writes.
pub talk_shows :
    {K : Type 0} (qt : Qt K) (sent : K → Bytes) (l : Local) (ms : List Text)
    (pieces answers : List Bytes) (s : Server K) (c : Client)
    → IsWhole qt sent
    → IsQt qt.stream
    → l.stream ≡ qt.stream
    → All (IsTalk qt) ms
    → OnlyLast (leaves_server qt) ms
    → s.closed ≡ false
    → c.closed ≡ false
    → concat pieces ≡ frames qt.stream ms
    → concat answers ≡ replies_to qt ms
    → let server : Reader (Server K) = record { next_block_size = 0; arrived = []; state = s } in
      let client : Reader Client = record { next_block_size = 0; arrived = []; state = c } in
      let heard = feed_open qt.stream (Server.react qt) (λ x. x.closed) server pieces in
      let shows = feed_open l.stream (Client.react l) (λ x. x.closed) client answers in
      (sent heard.state.socket ≡ sent s.socket ++ replies_to qt ms)
      × (heard.arrived ≡ [])
      × (shows.state.shown ≡ c.shown ++ talk_lines qt ms)
      × (shows.arrived ≡ [])
talk_shows qt sent l ms pieces answers s c w q same h last s_open c_open cut cut_back =
    let served =
      slot_read_client-acts qt sent w ms pieces s q (All-IsShort qt ms h) last s_open cut in
    let framed : concat answers ≡ frames l.stream (answers_to qt ms) =
      cut_back ∙ (replies_frames qt ms h ∙ ap (λ d. frames d (answers_to qt ms)) (sym same)) in
    let shown =
      slot_ready_read-lines_open l (subst IsQt (sym same) q) (answers_to qt ms) answers c
        (answers-IsLineMessage qt ms h) (answers-OnlyLast qt ms last) c_open framed in
    (
      ap (λ r. sent r.state.socket) served ∙ sent-acts qt sent w ms s,
      ap (λ r. r.arrived) served,
      shown.0 ∙ ap (λ t. c.shown ++ t) (lines_of-answers qt ms),
      shown.1,
    )
