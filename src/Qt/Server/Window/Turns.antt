-- ===== src/Qt/Server/Window/Turns.antt =====
-- Turns of the clients of the Qt server, as calls of its slots.
use cpp_network_homework.Prelude.{
  ℕ, suc, ◌≡◌, refl, sym, ap, ◌∙◌, inl, inr, Bool, true, false, ◌&&◌, some, List, [], ◌∷◌, ◌++◌,
  ◌==◌, if◌then◌else◌, Bool-cases, All, get_elem?, get_elem?-set_self, set-set, set-get_elem?,
  Bytes, concat,
}
use cpp_network_homework.Qt.Stream.{Text}
use cpp_network_homework.Qt.Frame.{frames, IsShort}
use cpp_network_homework.Qt.Reader.{Reader, ready_read, feed_open}
use cpp_network_homework.Qt.Server.{Qt, Server, react, slot_read_client}
use cpp_network_homework.Qt.Server.Replies.{leaves_server}
use cpp_network_homework.Qt.Server.Window.{
  Peer, Window, Event, connects, arrives, leaves, reader_of, behind, arrive, call_slot, on_event,
  run,
}

-- What happens between two moments at which no message is under way: a client connects, one sends
-- some messages, in pieces, or one is disconnected.
pub data Turn (K : Type 0) : Type 0 where
  joins : K → Turn K
  talks : ℕ → List Text → List Bytes → Turn K
  departs : ℕ → Turn K

-- The pieces are those of the messages, which fit their size fields and are no command to leave.
abbrev pub IsTurn : {K : Type 0} → Qt K → Turn K → Type 0
IsTurn qt (talks i ms cs) =
    All IsShort ms × All (λ m. leaves_server qt m ≡ false) ms × (concat cs ≡ frames qt.stream ms)
IsTurn qt _ = Unit

abbrev pub arrivals : {K : Type 0} → ℕ → List Bytes → List (Event K)
arrivals i [] = []
arrivals i (c ∷ cs) = arrives i c ∷ arrivals i cs

abbrev pub events_of_turn : {K : Type 0} → Turn K → List (Event K)
events_of_turn (joins k) = connects k ∷ []
events_of_turn (talks i ms cs) = arrivals i cs
events_of_turn (departs i) = leaves i ∷ []

-- The calls of the slots in some turns.
abbrev pub events_of : {K : Type 0} → List (Turn K) → List (Event K)
events_of [] = []
events_of (t ∷ ts) = events_of_turn t ++ events_of ts

-- The messages of the client `i` in a turn, if it is still connected, and whether it is then.
abbrev pub said : {K : Type 0} → Bool → ℕ → Turn K → List Text
said c i (talks j ms cs) = if j == i && c then ms else []
said c i _ = []

abbrev pub still : {K : Type 0} → Bool → ℕ → Turn K → Bool
still c i (departs j) = if j == i then false else c
still c i _ = c

-- Its messages in some turns, up to where it is disconnected.
abbrev pub said_by : {K : Type 0} → Bool → ℕ → List (Turn K) → List Text
said_by c i [] = []
said_by c i (t ∷ ts) = said c i t ++ said_by (still c i t) i ts

-- How many clients connect.
abbrev pub joined : {K : Type 0} → List (Turn K) → ℕ
joined [] = 0
joined (joins k ∷ ts) = suc (joined ts)
joined (_ ∷ ts) = joined ts

-- No message is under way, and the window is open.
abbrev pub IsIdle : {K : Type 0} → Window K → Type 0
IsIdle {K} w =
    (w.next_block_size ≡ 0)
    × ((i : ℕ) (p : Peer K) → get_elem? w.peers i ≡ some p → p.arrived ≡ [])
    × (w.closed ≡ false)

module _ {K : Type 0} (qt : Qt K) where
  pub run-append :
      (es fs : List (Event K)) (w : Window K) → run qt (es ++ fs) w ≡ run qt fs (run qt es w)
  unfolding run
  run-append [] fs w = refl
  run-append (e ∷ es) fs w = run-append es fs (on_event qt e w)

  -- The window is open: the slot is called.
  pub on_event_open :
      (e : Event K) (w : Window K) → w.closed ≡ false → on_event qt e w ≡ call_slot qt e w
  unfolding on_event
  on_event_open e w o = ap (λ x. if x then w else call_slot qt e w) o

  pub on_event_shut : (e : Event K) (w : Window K) → w.closed ≡ true → on_event qt e w ≡ w
  unfolding on_event
  on_event_shut e w o = ap (λ x. if x then w else call_slot qt e w) o

  pub on_event-arrives :
      (i : ℕ) (b : Bytes) (w : Window K) (p : Peer K)
      → get_elem? w.peers i ≡ some p
      → p.connected ≡ true
      → w.closed ≡ false
      → on_event qt (arrives i b) w
        ≡ behind qt i p w (ready_read qt.stream (react qt) (reader_of qt w p) b)
  unfolding call_slot arrive slot_read_client
  on_event-arrives i b w p h c o =
      on_event_open (arrives i b) w o
      ∙ ap (arrive qt i b w) h
      ∙ ap (λ x. if x then behind qt i p w (slot_read_client qt (reader_of qt w p) b) else w) c

  -- Behind the close nothing happens.
  run_closed : (es : List (Event K)) (w : Window K) → w.closed ≡ true → run qt es w ≡ w
  unfolding run
  run_closed [] w h = refl
  run_closed (e ∷ es) w h = ap (run qt es) (on_event_shut e w h) ∙ run_closed es w h

  -- Pieces that arrive at a connected client are those that its reader is fed with.
  pub run-arrivals :
      (i : ℕ) (cs : List Bytes) (w : Window K) (p : Peer K)
      → get_elem? w.peers i ≡ some p
      → p.connected ≡ true
      → run qt (arrivals i cs) w
        ≡ behind qt i p w (feed_open qt.stream (react qt) (λ x. x.closed) (reader_of qt w p) cs)
  unfolding run feed_open
  run-arrivals i [] w p h c = ap (λ l. record w { peers = l }) (sym (set-get_elem? w.peers i p h))
  run-arrivals i (b ∷ cs) w p h c = elim (Bool-cases w.closed) [
    | inl shut ↦
        run_closed (arrivals i (b ∷ cs)) w shut
        ∙ ap (λ l. record w { peers = l }) (sym (set-get_elem? w.peers i p h))
        ∙ ap (λ x. behind qt i p w (if x then reader_of qt w p else rest b cs w p)) (sym shut)
    | inr stays ↦
        let r = ready_read qt.stream (react qt) (reader_of qt w p) b in
        let p' : Peer K = record p { socket = r.state.socket; arrived = r.arrived } in
        let here = get_elem?-set_self w.peers i p' h in
        let f = feed_open qt.stream (react qt) (λ x. x.closed) r cs in
        let last : Peer K = record p { socket = f.state.socket; arrived = f.arrived } in
        ap (run qt (arrivals i cs)) (on_event-arrives i b w p h c stays)
        ∙ run-arrivals i cs (behind qt i p w r) p' here c
        ∙ ap (λ l. record (behind qt i p w f) { peers = l }) (set-set w.peers i p' last)
        ∙ ap (λ x. behind qt i p w (if x then reader_of qt w p else rest b cs w p)) (sym stays)
  ]
    where
      rest : Bytes → List Bytes → Window K → Peer K → Reader (Server K)
      rest b cs w p =
          feed_open qt.stream (react qt) (λ x. x.closed)
            (ready_read qt.stream (react qt) (reader_of qt w p) b) cs

  pub run-arrivals_deaf :
      (i : ℕ) (cs : List Bytes) (w : Window K)
      → ((bytes : Bytes) → on_event qt (arrives i bytes) w ≡ w)
      → run qt (arrivals i cs) w ≡ w
  unfolding run
  run-arrivals_deaf i [] w h = refl
  run-arrivals_deaf i (c ∷ cs) w h = ap (run qt (arrivals i cs)) (h c) ∙ run-arrivals_deaf i cs w h
