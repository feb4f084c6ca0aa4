-- ===== src/FileServer/Session/Visit.antt =====
-- A whole visit of a client at the file server: requests of files, and the line `exit`.
use cpp_network_homework.Prelude.{
  ℕ, ◌*◌, ◌≤◌, ◌<◌, ◌≡◌, refl, sym, ap, ◌∙◌, true, List, [], ◌∷◌, ◌++◌, map, append-nil,
  append_assoc, length, take, All, Bytes, codes,
}
use cpp_network_homework.Text.{c_string}
use cpp_network_homework.Text.Number.{digits_value, int_max}
use cpp_network_homework.Text.Stream.{parse_command}
use cpp_network_homework.Text.Command.{IsWord, IsDecimal, command_line}
use cpp_network_homework.Send.{Reply, accepted}
use cpp_network_homework.FileServer.Transceiver.Rounds.{joined, ServesAll}
use cpp_network_homework.FileServer.Transceiver.Blocks.{wanted, buffers_for}
use cpp_network_homework.FileServer.Request.{FileSystem}
use cpp_network_homework.FileServer.Request.Sending.{Holds}
use cpp_network_homework.FileServer.Session.{recv_size, Turn, echoed, ended, handle, stopped, serve}
use cpp_network_homework.FileServer.Session.Get.{IsText, asked, handle_get, session_exit}

-- A line `get <name> <fiction> <digits>`, the path and the bytes of the file, and the answers of
-- `send`: how much of the echo it takes, those for each buffer, and some more.
pub record Visit : Type 0 where
  pub name : Bytes
  pub fiction : Bytes
  pub digits : Bytes
  pub path : Bytes
  pub bytes : Bytes
  pub taken : ℕ
  pub served : List (List Reply)
  pub more : List Reply

abbrev pub line_of_visit : Visit → Bytes
line_of_visit v = command_line (codes "get") v.name v.fiction b' ' b' ' b' ' v.digits

abbrev pub turn_of : Visit → Turn
turn_of v = record {
  received = line_of_visit v;
  echo = accepted v.taken;
  replies = joined v.served v.more;
}

abbrev pub part_of_visit : Visit → Bytes
part_of_visit v = wanted (asked v.fiction v.digits) v.bytes

abbrev pub buffers_of_visit : Visit → ℕ
buffers_of_visit v = buffers_for (asked v.fiction v.digits) (length v.bytes)

-- Words, digits for a number that fits an `int`, no NUL, and no more than one `recv` takes; a file that is there; and a `send` that
-- serves each buffer.
abbrev pub IsVisit : FileSystem → Visit → Type 0
IsVisit fs v =
    IsWord v.name
    × IsWord v.fiction
    × IsDecimal v.digits
    × (digits_value 0 v.digits ≤ int_max)
    × (IsText (line_of_visit v) × (length (line_of_visit v) ≤ recv_size))
    × Holds fs v.name v.path v.bytes
    × ServesAll 4096 v.served
    × (length v.served ≡ buffers_of_visit v)

-- What the client is to get for some requests: for each what `send` took of its line, and behind it
-- the part of the file that is asked for, filled up to whole buffers.
pub data Replied : List Visit → Bytes → Type 0 where
  no_more : Replied [] []
  answered :
      (v : Visit) (vs : List Visit) (sent later : Bytes)
      → take (length (part_of_visit v)) sent ≡ part_of_visit v
      → length sent ≡ 4096 * buffers_of_visit v
      → Replied vs later
      → Replied (v ∷ vs) ((take v.taken (line_of_visit v) ++ sent) ++ later)

module _ (fs : FileSystem) where
  serve_step :
      (t : Turn) (ts : List Turn) (wire out : Bytes)
      → handle fs t ≡ ended true out
      → serve fs wire (t ∷ ts) ≡ serve fs (wire ++ out) ts
  unfolding serve
  serve_step t ts wire out e = rw (e, serve) refl

  serve-Replied :
      (vs : List Visit) (ts : List Turn) (wire : Bytes)
      → All (IsVisit fs) vs
      → (out : Bytes) × (serve fs wire (map turn_of vs ++ ts) ≡ serve fs (wire ++ out) ts)
        × Replied vs out
  serve-Replied [] ts wire h = ([], ap (λ w. serve fs w ts) (sym (append-nil wire)), no_more)
  serve-Replied (v ∷ vs) ts wire ((hn, hx, hd, hb, ht, file, s, e), hs) =
      let (sent, round, part, size) =
        handle_get fs v.name v.fiction v.digits v.path v.bytes v.served v.more v.taken hn hx hd hb
          ht file s e in
      let first = take v.taken (line_of_visit v) ++ sent in
      let (later, goes_on, rest) = serve-Replied vs ts (wire ++ first) hs in
      (
        first ++ later,
        serve_step (turn_of v) (map turn_of vs ++ ts) wire first round
            ∙ (goes_on ∙ ap (λ w. serve fs w ts) (append_assoc wire first later)),
        answered v vs sent later part size rest,
      )

  -- A whole visit: for each line `get <filename> <fiction> <number>` of a client, of words and of
  -- digits for a number that fits an `int`, without NUL and of at most 255 bytes, for a file that is
  -- there and a `send` that serves each buffer, the client gets what one `send` takes of the line, and behind it the part of
  -- the file that is asked for, padded to whole buffers of 4096 bytes; at a line whose first word is
  -- `exit`, also of at most 255 bytes, which is echoed as by one `send`, the loop ends, and later rounds are not run.
  pub serve_visit :
      (vs : List Visit) (t : Turn) (ts : List Turn)
      → All (IsVisit fs) vs
      → 0 < length t.received
      → length t.received ≤ recv_size
      → (parse_command (c_string t.received)).command ≡ codes "exit"
      → (out : Bytes) × (serve fs [] (map turn_of vs ++ (t ∷ ts))
          ≡ stopped (out ++ echoed (c_string t.received) t.echo) ts)
        × Replied vs out
  serve_visit vs t ts h some_bytes fits leaves =
      let (out, stops, answers) = serve-Replied vs (t ∷ ts) [] h in
      (out, stops ∙ session_exit fs t ts out some_bytes fits leaves, answers)
