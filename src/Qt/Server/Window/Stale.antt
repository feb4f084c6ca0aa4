-- ===== src/Qt/Server/Window/Stale.antt =====
-- A message of which the Qt server has got the size alone: the member `next_block_size_` serves all
-- clients.
use cpp_network_homework.Prelude.{
  ℕ, ◌<◌, ◌≡◌, refl, sym, ap, subst, ◌∙◌, Bool, true, false, Option, none, some, List, [], ◌∷◌,
  ◌++◌, ◌==◌, if◌then◌else◌, length, get_elem?, get_elem?-set_self, get_elem?-set_other,
}
use cpp_network_homework.Qt.Stream.{Text, IsQt}
use cpp_network_homework.Qt.Frame.{frame, IsShort, body_size}
use cpp_network_homework.Qt.Reader.{Reader, ready_read}
use cpp_network_homework.Qt.Reader.Shared.{ready_read_size, ready_read_short}
use cpp_network_homework.Qt.Server.{Qt, Server, react}
use cpp_network_homework.Qt.Server.Window.{
  Peer, Window, Event, arrives, leaves, reader_of, behind, leave, call_slot, on_event, run,
}
use cpp_network_homework.Qt.Server.Window.Turns.{
  IsIdle, run-append, on_event_open, on_event-arrives,
}

-- The size of a message arrives from one client, which may leave then.
abbrev pub starts_message : {K : Type 0} → Qt K → ℕ → Text → Bool → List (Event K)
starts_message qt i m gone =
    arrives i (qt.stream.put_uint16 (body_size m)) ∷ (if gone then leaves i ∷ [] else [])

module _ {K : Type 0} (qt : Qt K) (s : IsQt qt.stream) (w : Window K) (idle : IsIdle w) (i j : ℕ)
    (p q : Peer K) (other : (i == j) ≡ false) (first : get_elem? w.peers i ≡ some p)
    (second : get_elem? w.peers j ≡ some q) (p_there : p.connected ≡ true)
    (q_there : q.connected ≡ true) where
  -- The window behind the size.
  abbrev Behind : Text → Window K → Type 0
  Behind m v =
      (v.next_block_size ≡ body_size m)
      × (get_elem? v.peers j ≡ some q)
      × (v.shown ≡ w.shown)
      × (v.closed ≡ false)

  leave-Behind :
      (m : Text) (v : Window K) (o : Option (Peer K)) → Behind m v → Behind m (leave qt i v o)
  unfolding leave
  leave-Behind m v none b = b
  leave-Behind m v (some x) (z, there, shown, stays) =
      (z, get_elem?-set_other v.peers j i _ other ∙ there, shown, stays)

  may_leave-Behind :
      (m : Text) (v : Window K) (gone : Bool)
      → Behind m v
      → Behind m (run qt (if gone then leaves i ∷ [] else []) v)
  unfolding run call_slot
  may_leave-Behind m v true b =
      subst (Behind m) (sym (on_event_open qt (leaves i) v b.3))
        (leave-Behind m v (get_elem? v.peers i) b)
  may_leave-Behind m v false b = b

  starts-Behind :
      (m : Text) (gone : Bool) → IsShort m → Behind m (run qt (starts_message qt i m gone) w)
  unfolding run
  starts-Behind m gone h =
      let size = qt.stream.put_uint16 (body_size m) in
      let is_fresh : reader_of qt w p
          ≡ record { next_block_size = 0; arrived = []; state = (reader_of qt w p).state } =
        λ k. record {
          next_block_size = idle.0 k;
          arrived = idle.1 i p first k;
          state = (reader_of qt w p).state;
        } in
      let r : Reader (Server K) = record {
        next_block_size = body_size m;
        arrived = [];
        state = (reader_of qt w p).state;
      } in
      let sized : on_event qt (arrives i size) w ≡ behind qt i p w r =
        on_event-arrives qt i size w p first p_there idle.2
        ∙ ap (λ x. behind qt i p w (ready_read qt.stream (react qt) x size)) is_fresh
        ∙ ap (behind qt i p w) (ready_read_size qt.stream s (react qt) m _ h) in
      subst (λ v. Behind m (run qt (if gone then leaves i ∷ [] else []) v)) (sym sized)
        (may_leave-Behind m (behind qt i p w r) gone
          (refl, get_elem?-set_other w.peers j i _ other ∙ second, refl, idle.2))

  -- Once the size of a message of one client has arrived, without its text, a whole message of
  -- another client that is shorter than that size is neither read nor answered nor shown: it waits
  -- for as many bytes as the first client has announced, also when that client has gone since. The
  -- window is open, no other message is under way, and `QDataStream` reads back what it writes.
  pub stale_size :
      (m n : Text) (gone : Bool)
      → IsShort m
      → length (frame qt.stream n) < body_size m
      → let v = run qt (starts_message qt i m gone ++ (arrives j (frame qt.stream n) ∷ [])) w in
        (v.next_block_size ≡ body_size m)
        × (get_elem? v.peers j ≡ some (record q { arrived = frame qt.stream n }))
        × (v.shown ≡ w.shown)
  unfolding run
  stale_size m n gone h less =
      let u = run qt (starts_message qt i m gone) w in
      let (size_left, there, shown, stays) = starts-Behind m gone h in
      let bytes = frame qt.stream n in
      let st : Server K = record {
        socket = q.socket;
        shown = u.shown;
        closed = u.closed;
        hung = u.hung;
      } in
      let waits : Reader (Server K) = record {
        next_block_size = body_size m;
        arrived = bytes;
        state = st;
      } in
      let is_waiting : reader_of qt u q
          ≡ record { next_block_size = body_size m; arrived = []; state = st } =
        λ k. record { next_block_size = size_left k; arrived = idle.1 j q second k; state = st } in
      let runs : run qt (starts_message qt i m gone ++ (arrives j bytes ∷ [])) w
          ≡ behind qt j q u waits =
        run-append qt (starts_message qt i m gone) (arrives j bytes ∷ []) w
        ∙ on_event-arrives qt j bytes u q there q_there stays
        ∙ ap (λ x. behind qt j q u (ready_read qt.stream (react qt) x bytes)) is_waiting
        ∙ ap (behind qt j q u)
            (ready_read_short qt.stream s (react qt) (body_size m) bytes st less) in
      subst
        (λ (v : Window K).
          (v.next_block_size ≡ body_size m)
          × (get_elem? v.peers j ≡ some (record q { arrived = bytes }))
          × (v.shown ≡ w.shown))
        (sym runs) (refl, get_elem?-set_self u.peers j _ there, shown)
