-- ===== src/Send/Deliver.antt =====
-- What the three loops have put on the wire when they return, and that they return.
use cpp_network_homework.Prelude.{
  ℕ, ◌+◌, ◌-◌, ◌≤◌, ◌<◌, ◌≡◌, refl, sym, ap, ◌⊎◌, inl, inr, Bool, true, false, List, [], ◌∷◌, ◌++◌,
  arith, leb, ◌==◌, ==_iff, Bool-cases, length, take, take_all, take-add, Bytes,
}
use cpp_network_homework.Send.{
  Errno, Reply, accepted, failed, Outcome, returned, waiting, chunk, request_loop, send_request,
  message_loop, send_message, need_to_repeat, buffer_loop, send_buffer,
}

-- The replies let a loop send `k` more bytes: errors that it retries, and between 1 and `k` bytes
-- taken each time. They end when none is left.
pub data Serves (retry : Errno → Bool) : ℕ → List Reply → Type 0 where
  done : {k : ℕ} → k ≡ 0 → Serves retry k []
  retries :
      {k : ℕ} {e : Errno} {script : List Reply}
      → 0 < k
      → retry e ≡ true
      → Serves retry k script
      → Serves retry k (failed e ∷ script)
  takes :
      {k n : ℕ} {script : List Reply}
      → 0 < n
      → n ≤ k
      → Serves retry (k - n) script
      → Serves retry k (accepted n ∷ script)

-- When nothing is left to send, the replies are at their end.
Serves-nil :
    (retry : Errno → Bool) {k : ℕ} {script : List Reply}
    → Serves retry k script
    → k ≡ 0
    → script ≡ []
Serves-nil retry (done z) e = refl
Serves-nil retry (retries p q s) e = absurd (omega arith)
Serves-nil retry (takes p q s) e = absurd (omega arith)

-- A call that takes `n` bytes from `pos` on extends the prefix that is sent.
pub take-chunk : (m : Bytes) (pos n : ℕ) → take pos m ++ chunk m pos n ≡ take (pos + n) m
take-chunk m pos n = sym (take-add pos n m)

-- What an end of `send_request` shows: true, with the whole message on the wire, or with a prefix
-- of it after a call that took 0 bytes. While it waits, a prefix is on the wire.
abbrev pub RequestSent : Bytes → List Reply → Outcome → Type 0
RequestSent m script (waiting wire) = (k : ℕ) × (wire ≡ take k m)
RequestSent m script (returned b wire rest) =
    (b ≡ true)
    × ((wire ≡ m)
        ⊎ ((used : List Reply) × (k : ℕ) × (script ≡ used ++ (accepted 0 ∷ rest))
            × (wire ≡ take k m)))

RequestSent-cons :
    (m : Bytes) (r : Reply) (script : List Reply) (o : Outcome)
    → RequestSent m script o
    → RequestSent m (r ∷ script) o
RequestSent-cons m r script (waiting wire) h = h
RequestSent-cons m r script (returned b wire rest) (t, inl e) = (t, inl e)
RequestSent-cons m r script (returned b wire rest) (t, inr (used, k, e, w)) =
    (t, inr (r ∷ used, k, ap (◌∷◌ r) e, w))

request_loop_sound :
    (m : Bytes) (pos : ℕ) (script : List Reply)
    → RequestSent m script (request_loop m pos (take pos m) script)
unfolding request_loop
request_loop_sound m pos [] = (pos, refl)
request_loop_sound m pos (failed x ∷ script) =
    RequestSent-cons m (failed x) script _ (request_loop_sound m pos script)
request_loop_sound m pos (accepted n ∷ script) = elim (Bool-cases (n == 0)) [
  | inl z ↦ rw z (refl, inr ([], pos, ground arith, refl))
  | inr more ↦ elim (Bool-cases (leb (length m) (pos + n))) [
    | inl full ↦
        rw (more, full) (refl, inl (ground (arith, take-chunk m pos n, take_all (pos + n) m)))
    | inr part ↦
        rw (more, part, take-chunk m pos n)
          (RequestSent-cons m (accepted n) script _ (request_loop_sound m (pos + n) script))
  ]
]

-- `send_request` returns true whenever it returns, with the whole request on the wire, or with a
-- prefix of it after a call of `send` that took 0 bytes; while it waits, a prefix is on the wire.
pub send_request-RequestSent :
    (request : Bytes) (script : List Reply)
    → RequestSent request script (send_request request script)
unfolding send_request
send_request-RequestSent m script = request_loop_sound m 0 script

request_loop_total :
    (m : Bytes) (pos : ℕ) {k : ℕ} {script : List Reply} (more : List Reply)
    → 0 < k
    → pos + k ≡ length m
    → Serves (λ e. true) k script
    → request_loop m pos (take pos m) (script ++ more) ≡ returned true m more
unfolding request_loop
request_loop_total m pos more h t (done z) = absurd (omega arith)
request_loop_total m pos more h t (retries p e s) = request_loop_total m pos more h t s
request_loop_total m pos {k} more h t (takes {n = n} {script = script} p q s) =
    elim (Bool-cases (leb (length m) (pos + n))) [
      | inl full ↦
          ground (arith, take-chunk m pos n, take_all (pos + n) m, Serves-nil (λ e. true) s)
      | inr part ↦
          let ih = request_loop_total m (pos + n) {k = k - n} more (ground arith) (omega arith) s in
          ground (arith, take-chunk m pos n, ih)
    ]

-- A request that is not empty is sent whole: with a `send` that takes from 1 byte to what is left
-- each time, and errors of any kind between, `send_request` returns true with all of it on the
-- wire, and calls `send` no further.
pub send_request_total :
    (request : Bytes) {script : List Reply} (more : List Reply)
    → 0 < length request
    → Serves (λ e. true) (length request) script
    → send_request request (script ++ more) ≡ returned true request more
unfolding send_request
send_request_total m more h s = request_loop_total m 0 more h (omega arith) s

message_loop-request_loop :
    (m : Bytes) (pos : ℕ) (wire : Bytes) (script : List Reply)
    → message_loop m pos wire script ≡ request_loop m pos wire script
unfolding message_loop request_loop
message_loop-request_loop m pos wire [] = refl
message_loop-request_loop m pos wire (failed e ∷ script) =
    message_loop-request_loop m pos wire script
message_loop-request_loop m pos wire (accepted n ∷ script) =
    rw (message_loop-request_loop m (pos + n) (wire ++ chunk m pos n) script)

-- The server's `send_message` and the client's `send_request` agree on every message and on any
-- replies of `send`.
pub send_message-send_request :
    (m : Bytes) (script : List Reply) → send_message m script ≡ send_request m script
unfolding send_message send_request
send_message-send_request m script = message_loop-request_loop m 0 [] script

-- What an end of `send_buffer` shows: true and the whole buffer on the wire, or false and a prefix
-- of it, after an error that is not retried. While it waits, a prefix is on the wire.
abbrev pub BufferSent : Bytes → List Reply → Outcome → Type 0
BufferSent m script (waiting wire) = (k : ℕ) × (wire ≡ take k m)
BufferSent m script (returned true wire rest) = wire ≡ m
BufferSent m script (returned false wire rest) =
    (used : List Reply) × (e : Errno) × (k : ℕ) × (script ≡ used ++ (failed e ∷ rest))
    × (need_to_repeat e ≡ false)
    × (wire ≡ take k m)

BufferSent-cons :
    (m : Bytes) (r : Reply) (script : List Reply) (o : Outcome)
    → BufferSent m script o
    → BufferSent m (r ∷ script) o
BufferSent-cons m r script (waiting wire) h = h
BufferSent-cons m r script (returned true wire rest) h = h
BufferSent-cons m r script (returned false wire rest) (used, e, k, p, q, w) =
    (r ∷ used, e, k, ap (◌∷◌ r) p, q, w)

take_of_eq : (m : Bytes) (pos : ℕ) → (pos == length m) ≡ true → take pos m ≡ m
take_of_eq m pos h = take_all pos m (ground arith)

buffer_loop_sound :
    (m : Bytes) (pos : ℕ) (script : List Reply)
    → BufferSent m script (buffer_loop m pos (take pos m) script)
unfolding buffer_loop
buffer_loop_sound m pos [] = elim (Bool-cases (pos == length m)) [
  | inl full ↦ rw full (take_of_eq m pos full)
  | inr part ↦ rw part (pos, refl)
]
buffer_loop_sound m pos (accepted n ∷ script) = elim (Bool-cases (pos == length m)) [
  | inl full ↦ rw full (take_of_eq m pos full)
  | inr part ↦
      rw (part, take-chunk m pos n)
        (BufferSent-cons m (accepted n) script _ (buffer_loop_sound m (pos + n) script))
]
buffer_loop_sound m pos (failed e ∷ script) = elim (Bool-cases (pos == length m)) [
  | inl full ↦ rw full (take_of_eq m pos full)
  | inr part ↦ elim (Bool-cases (need_to_repeat e)) [
    | inl again ↦
        rw (part, again) (BufferSent-cons m (failed e) script _ (buffer_loop_sound m pos script))
    | inr hard ↦ rw (part, hard) ([], e, pos, refl, hard, refl)
  ]
]

-- `send_buffer` returns true only with the whole buffer on the wire, each byte once and in order,
-- and false only after an error other than `EINTR` and `EAGAIN`, with a prefix on the wire; while
-- it waits, a prefix is on the wire.
pub send_buffer-BufferSent :
    (buffer : Bytes) (script : List Reply) → BufferSent buffer script (send_buffer buffer script)
unfolding send_buffer
send_buffer-BufferSent m script = buffer_loop_sound m 0 script

buffer_loop_full :
    (m : Bytes) (pos : ℕ) (r : List Reply)
    → pos ≡ length m
    → buffer_loop m pos (take pos m) r ≡ returned true m r
unfolding buffer_loop
buffer_loop_full m pos [] e = let t = (==_iff pos (length m)).1 e in rw (t, take_of_eq m pos t)
buffer_loop_full m pos (accepted n ∷ r) e =
    let t = (==_iff pos (length m)).1 e in rw (t, take_of_eq m pos t)
buffer_loop_full m pos (failed x ∷ r) e =
    let t = (==_iff pos (length m)).1 e in rw (t, take_of_eq m pos t)

buffer_loop_total :
    (m : Bytes) (pos : ℕ) {k : ℕ} {script : List Reply} (more : List Reply)
    → pos + k ≡ length m
    → Serves need_to_repeat k script
    → buffer_loop m pos (take pos m) (script ++ more) ≡ returned true m more
unfolding buffer_loop
buffer_loop_total m pos more t (done z) = buffer_loop_full m pos more (omega arith)
buffer_loop_total m pos more t (retries p again s) =
    let part : (pos == length m) ≡ false = ground arith in
    rw (part, again) (buffer_loop_total m pos more t s)
buffer_loop_total m pos {k} more t (takes {n = n} p q s) =
    let part : (pos == length m) ≡ false = ground arith in
    rw (part, take-chunk m pos n) (buffer_loop_total m (pos + n) {k = k - n} more (omega arith) s)

-- With a `send` that takes from 1 byte to what is left each time, and `EINTR` and `EAGAIN` between,
-- `send_buffer` returns true with the whole buffer on the wire, and calls `send` no further.
pub send_buffer_total :
    (buffer : Bytes) {script : List Reply} (more : List Reply)
    → Serves need_to_repeat (length buffer) script
    → send_buffer buffer (script ++ more) ≡ returned true buffer more
unfolding send_buffer
send_buffer_total m more s = buffer_loop_total m 0 more (omega arith) s
