-- ===== src/Async/Settled.antt =====
-- What the asynchronous server can always still do for its clients.
use cpp_network_homework.Prelude.{◌≡◌, ◌⊎◌, true, false, List, Bytes}
use cpp_network_homework.Async.{Phase, reading, writing, gone, Session, Server, on_written, Step}

-- Some steps, one after another.
pub data Steps : Server → Server → Type 0 where
  here : {s : Server} → Steps s s
  further : {s t u : Server} → Step s t → Steps t u → Steps s u

-- A session that waits to read and has sent back all that it has received, or that is over.
pub IsSettled : Session → Type 0
IsSettled x =
    ((x.phase ≡ reading) × (x.sent ≡ x.received)) ⊎ ((bytes : Bytes) × (x.phase ≡ gone bytes))

-- A write that is pending completes.
finish_in : Phase → Session → Session
finish_in reading x = x
finish_in (writing bytes) x = on_written bytes true x
finish_in (gone bytes) x = x

finish : Session → Session
finish x = finish_in x.phase x

abbrev pub serving : List Session → Server
serving xs = record { sessions = xs; exited = false }
