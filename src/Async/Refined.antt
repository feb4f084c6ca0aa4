-- ===== src/Async/Refined.antt =====
-- Every run of the asynchronous server is one of the service that it is to give.
use cpp_network_homework.Prelude.{
  ◌≡◌, sym, subst, true, false, Option, none, some, List, [], ◌∷◌, ◌++◌, map, map-append, All,
  Bytes,
}
use cpp_network_homework.Async.{
  reading, Session, Server, start, on_read, on_accept, Step, accept_done, read_done, write_done,
  Reachable, started, steps,
}
use cpp_network_homework.Async.Reach.{IsEcho, Reachable-IsEcho}
use cpp_network_homework.Async.Service.{
  opens, Served, begun, after, channel_of, service_of, Served-heard, Served-dropped, Served-written,
}

All-middle : (xs ys : List Session) (x : Session) → All IsEcho (xs ++ (x ∷ ys)) → IsEcho x
All-middle [] ys x (h, t) = h
All-middle (z ∷ xs) ys x (h, t) = All-middle xs ys x t

Served-read :
    (xs ys : List Session) (x : Session) (r : Option Bytes)
    → x.phase ≡ reading
    → IsEcho x
    → Served (service_of (record { sessions = xs ++ (x ∷ ys); exited = false }))
    → Served
        (service_of (record { sessions = xs ++ ((on_read r x).0 ∷ ys); exited = (on_read r x).1 }))
unfolding on_read
Served-read xs ys x none p echo h = Served-dropped xs ys x p h
Served-read xs ys x (some bytes) p echo h = Served-heard xs ys x bytes p echo h

Served-step :
    {s t : Server}
    → Step s t
    → All IsEcho s.sessions
    → Served (service_of s)
    → Served (service_of t)
unfolding on_accept
Served-step (accept_done xs true) echo h =
    subst (λ cs. Served (record { channels = cs; stopped = false }))
      (sym (map-append channel_of xs (start ∷ []))) (after h (opens (map channel_of xs)))
Served-step (accept_done xs false) echo h = h
Served-step (read_done xs ys x r fits p) echo h =
    Served-read xs ys x r p (All-middle xs ys x echo) h
Served-step (write_done xs ys x bytes ok p) echo h =
    Served-written xs ys x bytes ok p (All-middle xs ys x echo) h

-- The server refines the service: whatever the order in which its operations complete, and whatever
-- fails, each state that it comes to is one that the service comes to, in which a channel hears more
-- only when it has answered all that it has heard, answers with that, and may be dropped; and the
-- program ends only when such a channel hears the command `exit`, to which it gives no answer.
pub Reachable-Served : {s : Server} → Reachable s → Served (service_of s)
Reachable-Served started = begun
Reachable-Served (steps r st) = Served-step st (Reachable-IsEcho r) (Reachable-Served r)
