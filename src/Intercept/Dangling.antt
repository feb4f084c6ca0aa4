-- ===== src/Intercept/Dangling.antt =====
-- Two uses of the interceptor that end in undefined behaviour: output behind the `close` of the
-- tracked socket, for the pointer to the log is not reset, and `sendmsg` with an open log.
use cpp_network_homework.Prelude.{
  ℕ, ◌+◌, ◌-◌, ◌%◌, ◌<◌, ◌≡◌, refl, true, false, Option, none, some, [], ◌∷◌, ◌++◌, arith, ltb,
  lt→ltb, length, Bytes, size_mod,
}
use cpp_network_homework.Intercept.{
  File, close_call, State, same_fd, close, put_chars, front, log_front, then_pass, write, send,
  sendto, Iov, put_char, msg_chars, msg_element, msg_loop, sendmsg,
}

-- `close` of the tracked descriptor, with an open log of text `t`.
close_tracked_open :
    (d : ℕ) (st : State) (t : Bytes)
    → st.socket_fd ≡ some d
    → st.log_file ≡ some (record { is_open = true; text = t })
    → close (some d) st
      ≡ some (record st {
        socket_fd = none;
        log_file = some (record { is_open = false; text = t });
        passed = st.passed ++ (close_call (some d) ∷ []);
      })
unfolding close
close_tracked_open d st t e f =
    let same : same_fd (some d) st.socket_fd ≡ true = rw e (ground arith) in rw same (rw f refl)

put_closed :
    (buf : Bytes) (f : File) (st : State)
    → f.is_open ≡ false
    → 1 < length buf
    → put_chars (front buf) f st ≡ none
unfolding put_chars front
put_closed [] f st e h = absurd (omega arith)
put_closed (c ∷ []) f st e h = absurd (omega arith)
put_closed (c ∷ d ∷ cs) f st e h = rw e

-- After the `close` of the tracked descriptor, with a log that is open, any `write`, `send` or
-- `sendto` of two bytes or more, on any descriptor, is undefined: it writes to the closed log.
pub close_then_output :
    (d : ℕ) (st : State) (t : Bytes) (fd : Option ℕ) (buf dest : Bytes) (flags addrlen : ℕ)
    → st.socket_fd ≡ some d
    → st.log_file ≡ some (record { is_open = true; text = t })
    → 1 < length buf
    → (st' : State) × (close (some d) st ≡ some st')
      × (write fd (some buf) st' ≡ none)
      × (send fd (some buf) flags st' ≡ none)
      × (sendto fd (some buf) flags dest addrlen st' ≡ none)
close_then_output d st t fd buf dest flags addrlen e f h = (
  closed,
  close_tracked_open d st t e f,
  unfold write log_front then_pass in ground (arith, bad),
  unfold send log_front then_pass in ground (arith, bad),
  unfold sendto log_front then_pass in ground (arith, bad),
)
  where
    closed : State
    closed = record st {
      socket_fd = none;
      log_file = some (record { is_open = false; text = t });
      passed = st.passed ++ (close_call (some d) ∷ []);
    }

    bad : put_chars (front buf) (record { is_open = false; text = t }) closed ≡ none
    bad = put_closed buf (record { is_open = false; text = t }) closed refl h

chars_single :
    (c : ℕ) (cs : Bytes) (v : Iov) (st : State) (t : Bytes)
    → st.log_file ≡ some (record { is_open = true; text = t })
    → v.1 ≡ length (c ∷ cs)
    → 1 < length (c ∷ cs)
    → length (c ∷ cs) < size_mod
    → msg_chars (v ∷ []) 0 (c ∷ cs) st ≡ none
unfolding msg_chars put_char put_chars
chars_single c cs v st t e l h b =
    let bound : ltb 0 ((v.1 + size_mod - 1) % size_mod) ≡ true = lt→ltb 0 _ (omega arith) in
    ground (arith, bound)

element_single :
    (c : ℕ) (cs : Bytes) (st : State) (t : Bytes)
    → st.log_file ≡ some (record { is_open = true; text = t })
    → 1 < length (c ∷ cs)
    → length (c ∷ cs) < size_mod
    → msg_element ((some (c ∷ cs), length (c ∷ cs)) ∷ []) (some (c ∷ cs), length (c ∷ cs)) st ≡ none
unfolding msg_element
element_single c cs st t e h b =
    ground (arith, chars_single c cs (some (c ∷ cs), length (c ∷ cs)) st t e refl h b)

-- With an open log, `sendmsg` of one element of two bytes or more reads behind the array of
-- elements, and is undefined.
pub sendmsg_single :
    (fd : Option ℕ) (flags : ℕ) (buf : Bytes) (st : State) (t : Bytes)
    → st.log_file ≡ some (record { is_open = true; text = t })
    → 1 < length buf
    → length buf < size_mod
    → sendmsg fd ((some buf, length buf) ∷ []) flags st ≡ none
sendmsg_single fd flags [] st t e h b = absurd (omega arith)
sendmsg_single fd flags (c ∷ cs) st t e h b =
    unfold sendmsg msg_loop then_pass in ground (arith, element_single c cs st t e h b)
