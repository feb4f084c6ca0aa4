-- ===== src/Qt/Client/Window/Deaf.antt =====
-- What the windows of the Qt clients do not react to.
use cpp_network_homework.Prelude.{
  ◌≡◌, refl, sym, ap, subst, ◌∙◌, false, List, [], ◌∷◌, ◌++◌, append-nil, append_assoc, Bytes,
  codes, equal,
}
use cpp_network_homework.Qt.Client.{Local}
use cpp_network_homework.Qt.Client.Window.{
  nothing, is_in, inherited_slot, slot_of, Connections, connections_by_address, connections_by_name,
  Window, Event, connects, clicks, presses_return, arrives, fails, types, call, call_error, arrive,
  step, run,
}

-- The base class has no slot of the name that both constructors give for the error, and none of
-- the other names that the constructor of hw6 gives.
unfoldable pub LacksError : List Bytes → Type 0
LacksError base = is_in base (codes "slotError(QAbstractSocket::SocketError)") ≡ false

unfoldable pub LacksAll : List Bytes → Type 0
LacksAll base =
    (is_in base (codes "slotConnected()") ≡ false)
    × (is_in base (codes "slotReadyRead()") ≡ false)
    × (is_in base (codes "slotSendToServer()") ≡ false)
    × LacksError base

inherited_slot_none :
    (base : List Bytes) (name : Bytes)
    → is_in base name ≡ false
    → inherited_slot base name ≡ nothing
unfolding inherited_slot
inherited_slot_none base name h = rw h refl

error_unconnected :
    (base : List Bytes)
    → LacksError base
    → slot_of base (codes "slotError(QAbstractSocket::SocketError)") ≡ nothing
unfolding slot_of equal LacksError
error_unconnected base h = inherited_slot_none base _ h

-- No signal is connected.
abbrev unconnected : Connections
unconnected = record {
  connected = nothing;
  ready_read = nothing;
  error = nothing;
  clicked = nothing;
  return_pressed = nothing;
}

by_name_unconnected : (base : List Bytes) → LacksAll base → connections_by_name base ≡ unconnected
unfolding connections_by_name slot_of equal LacksAll LacksError inherited_slot
by_name_unconnected base (c, r, s, e) = simp (c, r, s, e)

-- All that arrives, in its order.
unfoldable pub arrivals : List Event → Bytes
arrivals [] = []
arrivals (arrives bytes ∷ events) = bytes ++ arrivals events
arrivals (e ∷ events) = arrivals events

unfoldable pub without_errors : List Event → List Event
without_errors [] = []
without_errors (fails err ∷ events) = without_errors events
without_errors (e ∷ events) = e ∷ without_errors events

module _ (l : Local) (base_slot : Bytes → Window → Window) where
  IsSilent : Window → Bytes → Window → Type 0
  IsSilent w bytes v =
      (v.reader.state ≡ w.reader.state)
      × (v.written ≡ w.written)
      × (v.reader.arrived ≡ w.reader.arrived ++ bytes)

  run-unconnected :
      (events : List Event) (w : Window)
      → IsSilent w (arrivals events) (run l base_slot unconnected events w)
  unfolding run step call call_error arrive arrivals IsSilent
  run-unconnected [] w = (refl, refl, sym (append-nil w.reader.arrived))
  run-unconnected (arrives bytes ∷ events) w =
      let (s, v, a) = run-unconnected events (arrive l base_slot bytes w) in
      (s, v, a ∙ append_assoc w.reader.arrived bytes (arrivals events))
  run-unconnected (connects ∷ events) w = run-unconnected events w
  run-unconnected (clicks ∷ events) w = run-unconnected events w
  run-unconnected (presses_return ∷ events) w = run-unconnected events w
  run-unconnected (fails err ∷ events) w = run-unconnected events w
  run-unconnected (types text ∷ events) w = run-unconnected events (record w { input = text })

  -- The TLS client never shows, sends or reads anything: whatever happens to its window, the lines
  -- shown, the files, and what has been written are those of the beginning, and what arrives is left
  -- at the socket. The base class has no slots of the names that the constructor gives.
  pub run_by_name :
      (base : List Bytes) (events : List Event) (w : Window)
      → LacksAll base
      → let v = run l base_slot (connections_by_name base) events w in
        (v.reader.state ≡ w.reader.state)
        × (v.written ≡ w.written)
        × (v.reader.arrived ≡ w.reader.arrived ++ arrivals events)
  unfolding IsSilent
  run_by_name base events w h =
      subst (λ k. IsSilent w (arrivals events) (run l base_slot k events w))
        (sym (by_name_unconnected base h)) (run-unconnected events w)

  -- The client of hw5 shows no error: errors make no difference to its window, whatever else
  -- happens to it. The base class has no slot of the name that the constructor gives.
  pub run-without_errors :
      (base : List Bytes) (events : List Event) (w : Window)
      → LacksError base
      → run l base_slot (connections_by_address base) events w
        ≡ run l base_slot (connections_by_address base) (without_errors events) w
  unfolding run step call_error connections_by_address without_errors
  run-without_errors base [] w h = refl
  run-without_errors base (fails err ∷ events) w h =
      let k = connections_by_address base in
      ap (λ t. run l base_slot k events (call_error l base_slot t err w)) (error_unconnected base h)
      ∙ run-without_errors base events w h
  run-without_errors base (arrives bytes ∷ events) w h = run-without_errors base events _ h
  run-without_errors base (connects ∷ events) w h = run-without_errors base events _ h
  run-without_errors base (clicks ∷ events) w h = run-without_errors base events _ h
  run-without_errors base (presses_return ∷ events) w h = run-without_errors base events _ h
  run-without_errors base (types text ∷ events) w h = run-without_errors base events _ h
