-- ===== src/Send/Retry.antt =====
-- The loops under errors that last: `send_request` and `send_message` go round for ever.
use cpp_network_homework.Prelude.{
  ℕ, ◌+◌, ◌-◌, ◌<◌, ◌≡◌, refl, ap, ◌∙◌, false, List, [], ◌∷◌, ◌++◌, arith, ◌==◌, length, take, All,
  Bytes,
}
use cpp_network_homework.Send.{
  Errno, Reply, accepted, failed, returned, waiting, request_loop, send_request, send_message,
  need_to_repeat, buffer_loop, send_buffer,
}
use cpp_network_homework.Send.Deliver.{
  Serves, done, retries, takes, take-chunk, send_message-send_request,
}

abbrev pub HasFailed : Reply → Type 0
HasFailed (accepted n) = ⊥
HasFailed (failed e) = Unit

request_loop_spins :
    (m : Bytes) (pos : ℕ) (wire : Bytes) (script : List Reply)
    → All HasFailed script
    → request_loop m pos wire script ≡ waiting wire
unfolding request_loop
request_loop_spins m pos wire [] h = refl
request_loop_spins m pos wire (accepted n ∷ script) (h, t) = absurd h
request_loop_spins m pos wire (failed e ∷ script) (h, t) = request_loop_spins m pos wire script t

-- The bytes that `send` takes, with `EINTR` and `EAGAIN` between, go out, and the loop goes on.
buffer_loop-Serves :
    (m : Bytes) (pos : ℕ) {k : ℕ} {script : List Reply} (more : List Reply)
    → pos + k < length m
    → Serves need_to_repeat k script
    → buffer_loop m pos (take pos m) (script ++ more)
      ≡ buffer_loop m (pos + k) (take (pos + k) m) more
unfolding buffer_loop
buffer_loop-Serves m pos more l (done z) =
    let e : pos ≡ pos + _ = omega arith in ap (λ n. buffer_loop m n (take n m) more) e
buffer_loop-Serves m pos more l (retries p again s) =
    let part : (pos == length m) ≡ false = ground arith in
    rw (part, again) (buffer_loop-Serves m pos more l s)
buffer_loop-Serves m pos {k} more l (takes {n = n} p q s) =
    let part : (pos == length m) ≡ false = ground arith in
    let e : (pos + n) + (k - n) ≡ pos + k = omega arith in
    rw (part, take-chunk m pos n)
      (buffer_loop-Serves m (pos + n) {k = k - n} more (omega arith) s
        ∙ ap (λ j. buffer_loop m j (take j m) more) e)

-- However many calls of `send` fail, and whatever `errno` is each time, `send_request` and
-- `send_message` do not return: nothing is sent, false is never reported, and they call `send`
-- again. `send_buffer` returns false at the first error that is neither `EINTR` nor `EAGAIN`: behind
-- any calls that take some of the buffer, but not all, or fail with these two, it has sent what they
-- took, and calls `send` no further.
pub send_failed :
    (m : Bytes) (errors served more : List Reply) (k : ℕ) (e : Errno)
    → All HasFailed errors
    → Serves need_to_repeat k served
    → k < length m
    → need_to_repeat e ≡ false
    → (send_request m errors ≡ waiting [])
      × (send_message m errors ≡ waiting [])
      × (send_buffer m (served ++ (failed e ∷ more)) ≡ returned false (take k m) more)
send_failed m errors served more k e h s l hard =
    (spins, send_message-send_request m errors ∙ spins, stop)
  where
    spins : send_request m errors ≡ waiting []
    spins = unfold send_request in request_loop_spins m 0 [] errors h

    stops_at :
        (j : ℕ)
        → j ≡ k
        → buffer_loop m j (take j m) (failed e ∷ more) ≡ returned false (take k m) more
    stops_at j same =
        let part : (j == length m) ≡ false = ground arith in
        unfold buffer_loop in rw (part, hard) (ap (λ n. returned false (take n m) more) same)

    stop : send_buffer m (served ++ (failed e ∷ more)) ≡ returned false (take k m) more
    stop =
        unfold send_buffer in
        buffer_loop-Serves m 0 (failed e ∷ more) (omega arith) s ∙ stops_at (0 + k) (omega arith)
