-- ===== src/FileServer/Session/Get.antt =====
-- What the file server does in a round, and how its loop ends.
use cpp_network_homework.Prelude.{
  ℕ, ◌*◌, ◌≤◌, ◌<◌, ◌≡◌, refl, ap, ◌∙◌, true, false, List, [], ◌∷◌, ◌++◌, append-nil, arith, ltb,
  ◌==◌, if◌then◌else◌, lt→ltb, length, take, All, length-append, take_all, Bytes, codes, equal,
  equal_iff,
}
use cpp_network_homework.Text.{is_ws, c_string}
use cpp_network_homework.Text.Number.{digits_value, int_max, to_size_t}
use cpp_network_homework.Text.Stream.{Command, parse_command}
use cpp_network_homework.Text.Command.{IsWord, IsDecimal, command_line, parse_command-command_line}
use cpp_network_homework.Send.{Reply, accepted}
use cpp_network_homework.FileServer.Transceiver.{Transceiver}
use cpp_network_homework.FileServer.Transceiver.Rounds.{joined, ServesAll}
use cpp_network_homework.FileServer.Transceiver.Blocks.{wanted, buffers_for}
use cpp_network_homework.FileServer.Request.{FileSystem, processed, process}
use cpp_network_homework.FileServer.Request.Sending.{Holds, process-wanted}
use cpp_network_homework.FileServer.Session.{
  recv_size, Turn, echoed, fict_of, ended, round_of, transceiver_of, analyse, handle, stopped,
  running, serve,
}

-- No character of the text is NUL.
abbrev pub IsText : Bytes → Type 0
IsText = All (λ c. (c == 0) ≡ false)

c_string-IsText : (s : Bytes) → IsText s → c_string s ≡ s
unfolding c_string
c_string-IsText [] h = refl
c_string-IsText (c ∷ cs) (h, t) = rw h (ap (◌∷◌ c) (c_string-IsText cs t))

-- What is asked for by `get <filename> <fiction> <number>`.
abbrev pub asked : Bytes → Bytes → Transceiver
asked x ds = record { fict = fict_of x; size_fict = digits_value 0 ds }

echoed-accepted : (text : Bytes) (n : ℕ) → echoed text (accepted n) ≡ take n text
unfolding echoed
echoed-accepted text n = refl

handle_read :
    (fs : FileSystem) (t : Turn)
    → 0 < length t.received
    → length t.received ≤ recv_size
    → handle fs t ≡ analyse fs (c_string t.received) (parse_command (c_string t.received)) t
unfolding handle
handle_read fs t h fits =
    let some_bytes : ltb 0 (length t.received) ≡ true = lt→ltb _ _ h in
    ap
      (λ got.
        if ltb 0 (length got)
        then analyse fs (c_string got) (parse_command (c_string got)) t
        else ended true [])
      (take_all recv_size t.received fits)
    ∙ rw some_bytes refl

analyse_get :
    (fs : FileSystem) (text : Bytes) (c : Command) (t : Turn) (out : Bytes) (more : List Reply)
    → c.command ≡ codes "get"
    → ltb 4 (length text) ≡ true
    → process fs (transceiver_of c) c.filename t.replies ≡ processed true out more
    → analyse fs text c t ≡ ended true (echoed text t.echo ++ out)
unfolding analyse round_of
analyse_get fs text c t out more e h p =
    let get : equal c.command (codes "get") ≡ true = (equal_iff c.command (codes "get")).1 e in
    let stays : equal c.command (codes "exit") ≡ false = rw e (unfold equal in refl) in
    rw (get, stays, h, p) refl

analyse_exit :
    (fs : FileSystem) (text : Bytes) (c : Command) (t : Turn)
    → c.command ≡ codes "exit"
    → analyse fs text c t ≡ ended false (echoed text t.echo)
unfolding analyse
analyse_exit fs text c t e =
    let get : equal c.command (codes "get") ≡ false = rw e (unfold equal in refl) in
    let stays : equal c.command (codes "exit") ≡ true = (equal_iff c.command (codes "exit")).1 e in
    rw (get, stays) refl

-- A round with the line `get <filename> <fiction> <number>`, of words and of digits for a number
-- that fits an `int`, without NUL and of at most 255 bytes, for a file that is there and a `send` that serves each buffer:
-- the server goes on, and has sent what one `send` takes of the line, and behind it the part of
-- the file that is asked for, padded to whole buffers of 4096 bytes.
pub handle_get :
    (fs : FileSystem) (name x ds path bytes : Bytes) (ps : List (List Reply)) (more : List Reply)
    (n : ℕ)
    → IsWord name
    → IsWord x
    → IsDecimal ds
    → digits_value 0 ds ≤ int_max
    → (let line = command_line (codes "get") name x b' ' b' ' b' ' ds in
        IsText line × (length line ≤ recv_size))
    → Holds fs name path bytes
    → ServesAll 4096 ps
    → length ps ≡ buffers_for (asked x ds) (length bytes)
    → (out : Bytes) × (let line = command_line (codes "get") name x b' ' b' ' b' ' ds in
        handle fs (record { received = line; echo = accepted n; replies = joined ps more })
        ≡ ended true (take n line ++ out))
      × (take (length (wanted (asked x ds) bytes)) out ≡ wanted (asked x ds) bytes)
      × (length out ≡ 4096 * buffers_for (asked x ds) (length bytes))
handle_get fs name x ds path bytes ps more n hn hx hd hb ht file s e =
    let line = command_line (codes "get") name x b' ' b' ' b' ' ds in
    let t : Turn = record { received = line; echo = accepted n; replies = joined ps more } in
    let sent = process-wanted fs (asked x ds) name path bytes ps more file s e in
    let parsed =
      parse_command-command_line (codes "get") name x b' ' b' ' b' ' ds (get_word) hn hx
        (unfold is_ws in refl) (unfold is_ws in refl) (unfold is_ws in refl) hd hb in
    let long : ltb 4 (length line) ≡ true =
      unfold equal in
      ground (
        arith,
        length-append (codes "get") (b' ' ∷ (name ++ (b' ' ∷ (x ++ (b' ' ∷ ds))))),
        length-append name (b' ' ∷ (x ++ (b' ' ∷ ds))),
      ) in
    (
      sent.0,
      handle_read fs t (omega arith) ht.1
          ∙ ap
              (λ text.
                analyse fs text (parse_command text)
                  (record { received = line; echo = accepted n; replies = joined ps more }))
              (c_string-IsText line ht.0)
          ∙ rw parsed (
              analyse_get fs line _
                (record { received = line; echo = accepted n; replies = joined ps more }) sent.0
                more refl long (unfold transceiver_of to_size_t in sent.1))
          ∙ ap (λ w. ended true (w ++ sent.0)) (echoed-accepted line n),
      sent.2,
      sent.3,
    )
  where
    get_word : IsWord (codes "get")
    get_word = unfold is_ws in (refl, (refl, (refl, tt)))

-- After a line whose first word is `exit` the loop ends, and the later rounds are not run; the line
-- is echoed as by one `send`.
pub session_exit :
    (fs : FileSystem) (t : Turn) (ts : List Turn) (wire : Bytes)
    → 0 < length t.received
    → length t.received ≤ recv_size
    → (parse_command (c_string t.received)).command ≡ codes "exit"
    → serve fs wire (t ∷ ts) ≡ stopped (wire ++ echoed (c_string t.received) t.echo) ts
unfolding serve
session_exit fs t ts wire h fits e =
    let round : handle fs t ≡ ended false (echoed (c_string t.received) t.echo) =
      handle_read fs t h fits
      ∙ analyse_exit fs (c_string t.received) (parse_command (c_string t.received)) t e in
    rw (round, serve) refl

abbrev pub IsSilent : Turn → Type 0
IsSilent t = t.received ≡ []

-- When the client has closed the connection, or `recv` fails, the loop does not end: for any number
-- of such rounds the server is still running and has sent nothing more.
pub serve_silent :
    (fs : FileSystem) (ts : List Turn) (wire : Bytes)
    → All IsSilent ts
    → serve fs wire ts ≡ running wire
unfolding serve
serve_silent fs [] wire h = refl
serve_silent fs (t ∷ ts) wire (h, r) =
    let round : handle fs t ≡ ended true [] = unfold handle in rw h refl in
    rw (round, serve) (rw append-nil (serve_silent fs ts wire r))
