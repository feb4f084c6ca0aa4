-- ===== src/Qt/Server/Replies.antt =====
-- What the Qt server sends for the messages of a client.
use cpp_network_homework.Prelude.{
  ℕ, zero, suc, ◌+◌, ◌-◌, ◌<◌, ◌≡◌, refl, sym, ap, ◌∙◌, inl, inr, Bool, false, not, ◌&&◌, Option,
  none, some, List, [], ◌∷◌, ◌++◌, append-nil, append_assoc, arith, ◌==◌, if◌then◌else◌, Bool-cases,
  length, All, Bytes, codes, equal, concat,
}
use cpp_network_homework.Text.Stream.{is_empty}
use cpp_network_homework.Qt.Stream.{Text, IsQt}
use cpp_network_homework.Qt.Frame.{frame, frames, IsShort}
use cpp_network_homework.Qt.Reader.{feed, feed_open, acts}
use cpp_network_homework.Qt.Reader.Rounds.{IsMessage}
use cpp_network_homework.Qt.Reader.Reassembly.{
  feed-frames, feed_open-frames, OnlyLast, OnlyLast-StaysOpen,
}
use cpp_network_homework.Qt.Server.{
  Request, Qt, Server, fict_of, send_to_client, lacking_after, write_loop, path_of, file_block,
  is_open, send_to_file, show, reply, do_exit, with_file, do_get, on_message, react,
}

-- A socket that takes whole blocks, as `QTcpSocket` does while it is connected: `sent` is what it
-- has been given.
pub record IsWhole {K : Type 0} (qt : Qt K) (sent : K → Bytes) : Type 0 where
  pub takes : (k : K) (b : Bytes) → (qt.write k b).1 ≡ some (length b)
  pub adds : (k : K) (b : Bytes) → sent (qt.write k b).0 ≡ sent k ++ b

abbrev pub echo_of : Text → Text
echo_of str = codes "Server Response: Received \"" ++ (str ++ codes "\"")

module _ {K : Type 0} (qt : Qt K) where
  -- The file that a request names, if there is one.
  abbrev pub file_reply : Request → Bytes
  file_reply c =
      let path = path_of qt c.filename in
      if not (qt.files.exists path) && not (is_open qt (qt.files.opened path))
      then []
      else file_block qt path (fict_of c.fiction) c.size_fict

  abbrev pub exit_reply : Request → Bytes
  exit_reply c = if equal c.command (codes "exit") then frame qt.stream c.command else []

  abbrev pub get_reply : Request → Bytes
  get_reply c =
      if equal c.command (codes "get") && not (is_empty c.filename)
      then frame qt.stream c.command ++ file_reply c
      else []

  -- An echo of the message, the word `exit` if it is the command, and for `get` the word and the
  -- file.
  abbrev pub reply_to : Text → Bytes
  reply_to str =
      frame qt.stream (echo_of str) ++ (exit_reply (qt.parse str) ++ get_reply (qt.parse str))

  abbrev pub replies_to : List Text → Bytes
  replies_to [] = []
  replies_to (m ∷ ms) = reply_to m ++ replies_to ms

  write_loop_lacks :
      (fuel : ℕ) (k : K) (block : Bytes) (lacking : ℕ)
      → ((j : K) → (qt.write j block).1 ≡ none)
      → 0 < lacking
      → write_loop qt fuel k block lacking ≡ none
  unfolding write_loop lacking_after
  write_loop_lacks zero k block lacking h l = ground arith
  write_loop_lacks (suc n) k block lacking h l =
      let e : (lacking == 0) ≡ false = ground arith in
      rw (e, h k) (write_loop_lacks n (qt.write k block).0 block (lacking + 1) h (omega arith))

  -- While `write` fails, the loop that writes a block that is not empty goes on, whatever the
  -- number of its rounds.
  pub write_loop_hangs :
      (k : K) (block : Bytes) (fuel : ℕ)
      → ((j : K) → (qt.write j block).1 ≡ none)
      → 0 < length block
      → write_loop qt fuel k block (length block) ≡ none
  write_loop_hangs k block fuel h p = write_loop_lacks fuel k block (length block) h p

-- A command to leave.
abbrev pub leaves_server : {K : Type 0} → Qt K → Text → Bool
leaves_server qt m = equal (qt.parse m).command (codes "exit")

module _ {K : Type 0} (qt : Qt K) where
  with_file-closed : (o : Option K) (s : Server K) → (with_file qt s o).closed ≡ s.closed
  unfolding with_file
  with_file-closed none s = refl
  with_file-closed (some k) s = refl

  -- Other messages leave the window as it is.
  on_message-closed :
      (m : Text) (s : Server K) → leaves_server qt m ≡ false → (on_message qt m s).closed ≡ s.closed
  unfolding on_message do_get do_exit reply show
  on_message-closed m s stays =
      let c = qt.parse m in
      rw stays (elim (Bool-cases (equal c.command (codes "get") && not (is_empty c.filename))) [
        | inl t ↦ rw t (with_file-closed _ _)
        | inr f ↦ rw f refl
      ])

  pub acts-closed :
      (ms : List Text) (s : Server K)
      → All (λ m. leaves_server qt m ≡ false) ms
      → (acts (on_message qt) ms s).closed ≡ s.closed
  acts-closed [] s h = refl
  acts-closed (m ∷ ms) s (h, hs) = acts-closed ms (on_message qt m s) hs ∙ on_message-closed m s h

module _ {K : Type 0} (qt : Qt K) (sent : K → Bytes) (w : IsWhole qt sent) where
  write_loop_done : (fuel : ℕ) (k : K) (b : Bytes) → write_loop qt fuel k b 0 ≡ some k
  unfolding write_loop
  write_loop_done zero k b = refl
  write_loop_done (suc n) k b = refl

  write_loop_whole :
      (k : K) (b : Bytes)
      → (j : K) × (write_loop qt (length b) k b (length b) ≡ some j) × (sent j ≡ sent k ++ b)
  unfolding write_loop lacking_after
  write_loop_whole k [] = (k, refl, sym (append-nil (sent k)))
  write_loop_whole k (c ∷ cs) =
      let b = c ∷ cs in
      let z : length b - length b ≡ 0 = omega arith in
      let some_left : (length b == 0) ≡ false = ground arith in
      (
        (qt.write k b).0,
        rw (w.takes k b, z, some_left) (write_loop_done (length cs) (qt.write k b).0 b),
        w.adds k b,
      )

  send_to_file_sends :
      (k : K) (c : Request)
      → is_empty c.filename ≡ false
      → (j : K) × (send_to_file qt k c.filename (fict_of c.fiction) c.size_fict ≡ some j)
        × (sent j ≡ sent k ++ file_reply qt c)
  unfolding send_to_file
  send_to_file_sends k c e =
      let path = path_of qt c.filename in
      let block = file_block qt path (fict_of c.fiction) c.size_fict in
      let (j, returns, adds) = write_loop_whole k block in
      elim (Bool-cases (not (qt.files.exists path) && not (is_open qt (qt.files.opened path)))) [
        | inl missing ↦ rw (e, missing) (k, refl, sym (append-nil (sent k)))
        | inr there ↦ rw (e, there) (j, returns, adds)
      ]

  pub sent-reply :
      (str : Text) (s : Server K)
      → sent (reply qt str s).socket ≡ sent s.socket ++ frame qt.stream str
  unfolding reply send_to_client
  sent-reply str s = w.adds s.socket (frame qt.stream str)

  sent-do_exit :
      (c : Request) (s : Server K) → sent (do_exit qt c s).socket ≡ sent s.socket ++ exit_reply qt c
  unfolding do_exit show
  sent-do_exit c s = elim (Bool-cases (equal c.command (codes "exit"))) [
    | inl t ↦ rw t (sent-reply c.command (show qt (codes "Breaking") s))
    | inr f ↦ rw f (sym (append-nil (sent s.socket)))
  ]

  sent-do_get :
      (c : Request) (s : Server K) → sent (do_get qt c s).socket ≡ sent s.socket ++ get_reply qt c
  unfolding do_get with_file
  sent-do_get c s = elim (Bool-cases (equal c.command (codes "get") && not (is_empty c.filename))) [
    | inl t ↦
        let named : is_empty c.filename ≡ false = ground arith in
        let r = reply qt c.command s in
        let (j, returns, adds) = send_to_file_sends r.socket c named in
        rw (t, returns)
          (adds
            ∙ ap (λ x. x ++ file_reply qt c) (sent-reply c.command s)
            ∙ append_assoc (sent s.socket) (frame qt.stream c.command) (file_reply qt c))
    | inr f ↦ rw f (sym (append-nil (sent s.socket)))
  ]

  sent-on_message :
      (str : Text) (s : Server K)
      → sent (on_message qt str s).socket ≡ sent s.socket ++ reply_to qt str
  unfolding on_message show
  sent-on_message str s =
      let c = qt.parse str in
      let told = show qt (codes "Client has sent - " ++ str) s in
      let r = reply qt (echo_of str) told in
      sent-do_get c (do_exit qt c r)
      ∙ ap (λ x. x ++ get_reply qt c)
          (sent-do_exit c r ∙ ap (λ x. x ++ exit_reply qt c) (sent-reply (echo_of str) told))
      ∙ ap (λ x. x ++ get_reply qt c)
          (append_assoc (sent s.socket) (frame qt.stream (echo_of str)) (exit_reply qt c))
      ∙ append_assoc (sent s.socket) _ (get_reply qt c)
      ∙ ap (λ x. sent s.socket ++ x)
          (append_assoc (frame qt.stream (echo_of str)) (exit_reply qt c) (get_reply qt c))

  pub sent-acts :
      (ms : List Text) (s : Server K)
      → sent (acts (on_message qt) ms s).socket ≡ sent s.socket ++ replies_to qt ms
  sent-acts [] s = sym (append-nil (sent s.socket))
  sent-acts (m ∷ ms) s =
      sent-acts ms (on_message qt m s)
      ∙ ap (λ x. x ++ replies_to qt ms) (sent-on_message m s)
      ∙ append_assoc (sent s.socket) (reply_to qt m) (replies_to qt ms)

  messages_IsMessage :
      (ms : List Text) → All IsShort ms → All (IsMessage (react qt) (on_message qt)) ms
  unfolding react
  messages_IsMessage [] h = tt
  messages_IsMessage (m ∷ ms) (h, t) = ((h, λ b s. refl), messages_IsMessage ms t)

  -- The messages of a client that fit their size fields, cut into pieces in any way: the server
  -- answers each once, in order, with the echo, the word `exit` behind a command to leave, and the
  -- word `get` and the file behind a request that names one that is there; nothing is left unread.
  -- The socket takes whole blocks, and `QDataStream` reads back what it writes.
  pub slot_read_client-replies :
      (ms : List Text) (cs : List Bytes) (s : Server K)
      → IsQt qt.stream
      → All IsShort ms
      → concat cs ≡ frames qt.stream ms
      → let r =
          feed qt.stream (react qt) (record { next_block_size = 0; arrived = []; state = s }) cs in
        (sent r.state.socket ≡ sent s.socket ++ replies_to qt ms)
        × (r.arrived ≡ [])
        × (r.next_block_size ≡ 0)
  slot_read_client-replies ms cs s q h e =
      let whole =
        feed-frames qt.stream q (react qt) (on_message qt) ms cs s (messages_IsMessage ms h) e in
      (
        ap (λ r. sent r.state.socket) whole ∙ sent-acts ms s,
        ap (λ r. r.arrived) whole,
        ap (λ r. r.next_block_size) whole,
      )

  -- The same up to the close of the window, which only the last message may ask for.
  pub slot_read_client-acts :
      (ms : List Text) (cs : List Bytes) (s : Server K)
      → IsQt qt.stream
      → All IsShort ms
      → OnlyLast (leaves_server qt) ms
      → s.closed ≡ false
      → concat cs ≡ frames qt.stream ms
      → feed_open qt.stream
          (react qt)
          (λ x. x.closed)
          (record { next_block_size = 0; arrived = []; state = s })
          cs
        ≡ record { next_block_size = 0; arrived = []; state = acts (on_message qt) ms s }
  slot_read_client-acts ms cs s q h o c e =
      feed_open-frames qt.stream q (react qt) (on_message qt) (λ x. x.closed) ms cs s
        (messages_IsMessage ms h)
        (OnlyLast-StaysOpen qt.stream q (react qt) (on_message qt) (λ x. x.closed)
          (leaves_server qt) ms s (on_message-closed qt) o c)
        e
