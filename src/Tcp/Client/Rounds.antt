-- ===== src/Tcp/Client/Rounds.antt =====
-- What the client of hw3 sends, and what it prints of the answers.
use cpp_network_homework.Prelude.{
  ℕ, suc, ◌<◌, ◌≡◌, refl, sym, ap, ◌∙◌, inl, inr, true, false, some, List, [], ◌∷◌, ◌++◌,
  append-nil, append_assoc, arith, leb, Bool-cases, length, set, All, length-set, Bytes, concat,
}
use cpp_network_homework.Text.{trim}
use cpp_network_homework.Text.Line.{stripped, line_of-append, IsLine, trim-line_of}
use cpp_network_homework.Text.Console.{line_of, after_line}
use cpp_network_homework.Send.{Reply, send_request}
use cpp_network_homework.Send.Deliver.{Serves, send_request_total}
use cpp_network_homework.Udp.Client.{resize}
use cpp_network_homework.Udp.Client.Chat.{length-resize}
use cpp_network_homework.Tcp.{Received, received, refused, is_eintr}
use cpp_network_homework.Tcp.Client.{
  recv_answer, clip_crlf, Talk, going_on, after_answer, after_request, talk,
}

-- What the client is given in one round: the line, the answers to `send`, the pieces that arrive,
-- and what `recv` answers when there are no more of them.
pub record Round : Type 0 where
  pub line : Bytes
  pub replies : List Reply
  pub pieces : List Bytes
  pub last : Received

abbrev pub command_of : Round → Bytes
command_of r = clip_crlf (stripped r.line)

-- Nothing more has arrived: an error other than `EINTR`, as `EAGAIN` on the socket that does not
-- block.
abbrev pub IsRefused : Received → Type 0
IsRefused (received b) = ⊥
IsRefused (refused e) = is_eintr e ≡ false

abbrev pub IsGoodRound : Round → Type 0
IsGoodRound r =
    IsLine r.line
    × (0 < length (stripped r.line))
    × Serves (λ e. true) (length (command_of r)) r.replies
    × All (λ p. 0 < length p) r.pieces
    × IsRefused r.last

-- What `recv` answers in some rounds.
abbrev pub pieces_then : List Bytes → List Received → List Received
pieces_then [] script = script
pieces_then (p ∷ ps) script = received p ∷ pieces_then ps script

abbrev pub typed_in : List Round → Bytes → Bytes
typed_in [] rest = rest
typed_in (r ∷ rs) rest = r.line ++ (b'\n' ∷ typed_in rs rest)

abbrev pub sends_in : List Round → List Reply → List Reply
sends_in [] more = more
sends_in (r ∷ rs) more = r.replies ++ sends_in rs more

abbrev pub recvs_in : List Round → List Received → List Received
recvs_in [] more = more
recvs_in (r ∷ rs) more = pieces_then r.pieces (r.last ∷ recvs_in rs more)

abbrev pub commands_in : List Round → Bytes
commands_in [] = []
commands_in (r ∷ rs) = command_of r ++ commands_in rs

abbrev pub answers_in : List Round → Bytes
answers_in [] = []
answers_in (r ∷ rs) = concat r.pieces ++ answers_in rs

recv_answer_last :
    (e : Received) (script : List Received) (printed : Bytes)
    → IsRefused e
    → recv_answer (e ∷ script) printed ≡ (printed, some script)
unfolding recv_answer
recv_answer_last (received b) script printed h = absurd h
recv_answer_last (refused e) script printed h = rw h refl

recv_answer_pieces :
    (ps : List Bytes) (e : Received) (script : List Received) (printed : Bytes)
    → All (λ p. 0 < length p) ps
    → IsRefused e
    → recv_answer (pieces_then ps (e ∷ script)) printed ≡ (printed ++ concat ps, some script)
unfolding recv_answer
recv_answer_pieces [] e script printed h last =
    recv_answer_last e script printed last ∙ ap (λ p. (p, some script)) (sym (append-nil printed))
recv_answer_pieces ([] ∷ ps) e script printed (h, t) last = absurd (omega arith)
recv_answer_pieces ((c ∷ cs) ∷ ps) e script printed (h, t) last =
    recv_answer_pieces ps e script (printed ++ (c ∷ cs)) t last
    ∙ ap (λ p. (p, some script)) (append_assoc printed (c ∷ cs) (concat ps))

positive_clip : (text : Bytes) → 0 < length text → 0 < length (clip_crlf text)
unfolding clip_crlf
positive_clip text h = elim (Bool-cases (leb 1000 (length text))) [
  | inl long ↦
      let cut = resize text 1000 in
      rw long (
        omega (
          arith,
          length-set {A = ℕ} (set (set cut 997 13) 998 10) 999 0,
          length-set {A = ℕ} (set cut 997 13) 998 10,
          length-set {A = ℕ} cut 997 13,
          length-resize text 1000,
        ))
  | inr short ↦ rw short h
]

talk_step :
    (n : ℕ) (t : Talk) (text : Bytes)
    → trim (line_of t.input) ≡ some text
    → talk (suc n) t
      ≡ after_request
          (talk n)
          (record t { input = after_line t.input })
          (send_request (clip_crlf text) t.sends)
unfolding talk
talk_step n t text e = rw (e, talk)

talk_round :
    (n : ℕ) (r : Round) (input : Bytes) (sends : List Reply) (recvs : List Received)
    (wire printed : Bytes)
    → IsGoodRound r
    → talk (suc n) (record {
      input = r.line ++ (b'\n' ∷ input);
      sends = r.replies ++ sends;
      recvs = pieces_then r.pieces (r.last ∷ recvs);
      wire = wire;
      printed = printed;
    })
      ≡ talk n (record {
        input = input;
        sends = sends;
        recvs = recvs;
        wire = wire ++ command_of r;
        printed = printed ++ concat r.pieces;
      })
unfolding after_request after_answer
talk_round n r input sends recvs wire printed (line, positive, serves, pieces, last) =
    let t : Talk = record {
      input = r.line ++ (b'\n' ∷ input);
      sends = r.replies ++ sends;
      recvs = pieces_then r.pieces (r.last ∷ recvs);
      wire = wire;
      printed = printed;
    } in
    let sent =
      send_request_total (command_of r) sends (positive_clip (stripped r.line) positive) serves in
    talk_step n t (stripped r.line) (trim-line_of r.line input line)
    ∙ rw
        (
          sent,
          (line_of-append r.line input line.0).1,
          recv_answer_pieces r.pieces r.last recvs printed pieces last,
        )
        refl

-- In each round, whose line is not blank, the client sends the line, stripped and cut to the
-- limit, whole, and prints all that has arrived; it goes on whatever the lines are: the word
-- `exit` is sent like the others. `send` serves each request, and `recv` gives some pieces and
-- then an error that is not `EINTR`.
pub talk_rounds :
    (rs : List Round) (input : Bytes) (sends : List Reply) (recvs : List Received)
    (wire printed : Bytes)
    → All IsGoodRound rs
    → talk (length rs) (record {
      input = typed_in rs input;
      sends = sends_in rs sends;
      recvs = recvs_in rs recvs;
      wire = wire;
      printed = printed;
    })
      ≡ going_on (record {
        input = input;
        sends = sends;
        recvs = recvs;
        wire = wire ++ commands_in rs;
        printed = printed ++ answers_in rs;
      })
talk_rounds [] input sends recvs wire printed h =
    unfold talk in rw (append-nil wire, append-nil printed) refl
talk_rounds (r ∷ rs) input sends recvs wire printed (h, t) =
    talk_round (length rs) r (typed_in rs input) (sends_in rs sends) (recvs_in rs recvs) wire
      printed h
    ∙ talk_rounds rs input sends recvs (wire ++ command_of r) (printed ++ concat r.pieces) t
    ∙ rw
        (
          append_assoc wire (command_of r) (commands_in rs),
          append_assoc printed (concat r.pieces) (answers_in rs),
        )
        refl
