-- ===== src/Async/Service.antt =====
-- What the asynchronous server of hw4/tcp_asio_server/main.cpp is to do, without handlers and
-- buffers: channels that hear and answer in turns.
use cpp_network_homework.Prelude.{
  ◌≡◌, sym, ap, subst, ◌∙◌, inl, inr, Bool, true, false, some, List, [], ◌∷◌, ◌++◌, map, append-nil,
  map-append, Bool-cases, Bytes, codes, equal,
}
use cpp_network_homework.Text.{c_string}
use cpp_network_homework.Text.Stream.{parse_command}
use cpp_network_homework.Async.{
  Phase, reading, writing, gone, Session, Server, do_command, on_read, on_written,
}
use cpp_network_homework.Async.Reach.{unsent, IsEcho}

-- A channel to a client: all that it has heard, all that it has answered, and whether it is open.
pub record Channel : Type 0 where
  pub heard : Bytes
  pub answered : Bytes
  pub is_open : Bool

-- It hears more only when it has answered everything, an answer is all that is lacking, and it may
-- be dropped at any time.
pub data ChannelStep : Channel → Channel → Type 0 where
  hears :
      (c : Channel) (bytes : Bytes)
      → c.is_open ≡ true
      → c.answered ≡ c.heard
      → ChannelStep c (record { heard = c.heard ++ bytes; answered = c.answered; is_open = true })
  answers :
      (c : Channel)
      → c.is_open ≡ true
      → ChannelStep c (record { heard = c.heard; answered = c.heard; is_open = true })
  drops :
      (c : Channel)
      → c.is_open ≡ true
      → ChannelStep c (record { heard = c.heard; answered = c.answered; is_open = false })

pub record Service : Type 0 where
  pub channels : List Channel
  pub stopped : Bool

abbrev pub IsExit : Bytes → Type 0
IsExit bytes = equal (parse_command (c_string bytes)).command (codes "exit") ≡ true

-- One step of a service that has not stopped: a new channel, a step of one channel, or the end,
-- when a channel that has answered everything hears the command `exit`.
pub data ServiceStep : Service → Service → Type 0 where
  opens :
      (cs : List Channel)
      → ServiceStep
          (record { channels = cs; stopped = false })
          (record {
            channels = cs ++ (record { heard = []; answered = []; is_open = true } ∷ []);
            stopped = false;
          })
  moves :
      (cs ds : List Channel) (c d : Channel)
      → ChannelStep c d
      → ServiceStep
          (record { channels = cs ++ (c ∷ ds); stopped = false })
          (record { channels = cs ++ (d ∷ ds); stopped = false })
  ends :
      (cs ds : List Channel) (c : Channel) (bytes : Bytes)
      → c.is_open ≡ true
      → c.answered ≡ c.heard
      → IsExit bytes
      → ServiceStep
          (record { channels = cs ++ (c ∷ ds); stopped = false })
          (record {
            channels =
                cs
                ++ (record { heard = c.heard ++ bytes; answered = c.answered; is_open = false }
                    ∷ ds);
            stopped = true;
          })

pub data Served : Service → Type 0 where
  begun : Served (record { channels = []; stopped = false })
  after : {s t : Service} → Served s → ServiceStep s t → Served t

abbrev pub open_in : Phase → Bool
open_in reading = true
open_in (writing bytes) = true
open_in (gone bytes) = false

-- What a session and a server are for their clients.
abbrev pub channel_of : Session → Channel
channel_of x = record { heard = x.received; answered = x.sent; is_open = open_in x.phase }

abbrev pub service_of : Server → Service
service_of s = record { channels = map channel_of s.sessions; stopped = s.exited }

-- The services of some sessions with one among them.
around : List Session → Channel → List Session → Bool → Service
around xs c ys stopped = record {
  channels = map channel_of xs ++ (c ∷ map channel_of ys);
  stopped = stopped;
}

service_around :
    (xs ys : List Session) (x : Session) (exited : Bool)
    → service_of (record { sessions = xs ++ (x ∷ ys); exited = exited })
      ≡ around xs (channel_of x) ys exited
unfolding around
service_around xs ys x exited =
    ap (λ cs. record { channels = cs; stopped = exited }) (map-append channel_of xs (x ∷ ys))

then_around :
    (xs ys : List Session) (x y : Session) (exited : Bool)
    → ServiceStep (around xs (channel_of x) ys false) (around xs (channel_of y) ys exited)
    → Served (service_of (record { sessions = xs ++ (x ∷ ys); exited = false }))
    → Served (service_of (record { sessions = xs ++ (y ∷ ys); exited = exited }))
then_around xs ys x y exited step h =
    subst Served (sym (service_around xs ys y exited))
      (after (subst Served (service_around xs ys x false) h) step)

pub all_answered :
    (x : Session) → x.phase ≡ reading → IsEcho x → (open_in x.phase ≡ true) × (x.sent ≡ x.received)
all_answered x p h =
    (ap open_in p, sym (append-nil x.sent) ∙ sym (ap (λ t. x.sent ++ unsent t) p) ∙ h)

-- A completed read of some bytes: the channel hears them, or the service ends.
pub Served-heard :
    (xs ys : List Session) (x : Session) (bytes : Bytes)
    → x.phase ≡ reading
    → IsEcho x
    → Served (service_of (record { sessions = xs ++ (x ∷ ys); exited = false }))
    → let r = on_read (some bytes) x in
      Served (service_of (record { sessions = xs ++ (r.0 ∷ ys); exited = r.1 }))
unfolding on_read do_command around
Served-heard xs ys x bytes p echo h =
    let (opened, answered) = all_answered x p echo in
    let heard = record x { received = x.received ++ bytes } in
    elim (Bool-cases (equal (parse_command (c_string bytes)).command (codes "exit"))) [
      | inl e ↦ rw e (
          then_around xs ys x (record heard { phase = gone bytes }) true
            (ends (map channel_of xs) (map channel_of ys) (channel_of x) bytes opened answered e) h)
      | inr e ↦ rw e (
          then_around xs ys x (record heard { phase = writing bytes }) false
            (moves (map channel_of xs) (map channel_of ys) (channel_of x) _
              (hears (channel_of x) bytes opened answered))
            h)
    ]

-- An operation that fails drops the channel.
pub Served-dropped :
    (xs ys : List Session) (x : Session)
    → x.phase ≡ reading
    → Served (service_of (record { sessions = xs ++ (x ∷ ys); exited = false }))
    → let y : Session = record x { phase = gone [] } in
      Served (service_of (record { sessions = xs ++ (y ∷ ys); exited = false }))
unfolding around
Served-dropped xs ys x p h =
    then_around xs ys x (record x { phase = gone [] }) false
      (moves (map channel_of xs) (map channel_of ys) (channel_of x) _
        (drops (channel_of x) (ap open_in p)))
      h

pub Served-written :
    (xs ys : List Session) (x : Session) (bytes : Bytes) (ok : Bool)
    → x.phase ≡ writing bytes
    → IsEcho x
    → Served (service_of (record { sessions = xs ++ (x ∷ ys); exited = false }))
    → Served (service_of (record { sessions = xs ++ (on_written bytes ok x ∷ ys); exited = false }))
unfolding on_written around
Served-written xs ys x bytes false p echo h =
    then_around xs ys x (record x { phase = gone bytes }) false
      (moves (map channel_of xs) (map channel_of ys) (channel_of x) _
        (drops (channel_of x) (ap open_in p)))
      h
Served-written xs ys x bytes true p echo h =
    let answered : x.sent ++ bytes ≡ x.received = sym (ap (λ t. x.sent ++ unsent t) p) ∙ echo in
    let y : Session = record x { phase = reading; sent = x.sent ++ bytes } in
    then_around xs ys x y false
      (moves (map channel_of xs) (map channel_of ys) (channel_of x) (channel_of y) (
        subst
          (λ t.
            ChannelStep (channel_of x)
              (record { heard = x.received; answered = t; is_open = true }))
          (sym answered) (answers (channel_of x) (ap open_in p))))
      h
