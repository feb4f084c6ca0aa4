-- ===== src/Tests/Clients.antt =====
-- The windows of the Qt clients at concrete inputs.
use cpp_network_homework.Prelude.{◌≡◌, refl, true, List, [], ◌∷◌, ◌++◌, Bytes, codes, equal}
use cpp_network_homework.Qt.Stream.Wire.{wire}
use cpp_network_homework.Qt.Client.{Local, host_not_found}
use cpp_network_homework.Qt.Client.Window.{
  is_in, connections_by_address, connections_by_name, Window, new_window, Event, connects, clicks,
  arrives, fails, types, run,
}
use cpp_network_homework.Qt.Client.Window.Deaf.{
  LacksError, LacksAll, arrivals, without_errors, run_by_name, run-without_errors,
}

abbrev here : Local
here = record { stream = wire; section_last = λ p. p; current = codes "/home"; opens = λ p. true }

abbrev no_slot : Bytes → Window → Window
no_slot name w = w

-- Some of the slots of the base class.
abbrev widget_slots : List Bytes
widget_slots = codes "close()" ∷ codes "show()" ∷ []

widget-LacksAll : LacksAll widget_slots
unfolding LacksAll LacksError is_in equal
widget-LacksAll = (refl, refl, refl, refl)

widget-LacksError : LacksError widget_slots
unfolding LacksError is_in equal
widget-LacksError = refl

abbrev some_events : List Event
some_events =
    connects ∷ arrives (codes "ab") ∷ types (codes "exit") ∷ clicks ∷ fails host_not_found ∷ []

run_by_name_example :
    (let v = run here no_slot (connections_by_name widget_slots) some_events new_window in
      (v.reader.state ≡ new_window.reader.state)
      × (v.written ≡ [])
      × (v.reader.arrived ≡ [] ++ arrivals some_events))
run_by_name_example = run_by_name here no_slot widget_slots some_events new_window widget-LacksAll

run-without_errors_example :
    run here no_slot (connections_by_address widget_slots) some_events new_window
    ≡ run here no_slot (connections_by_address widget_slots) (without_errors some_events) new_window
run-without_errors_example =
    run-without_errors here no_slot widget_slots some_events new_window widget-LacksError
