-- ===== src/Socket.antt =====
-- socket_wrapper/src/socket.cpp: the owner of one descriptor. `none` is INVALID_SOCKET. What the
-- operating system answers to `socket` and `accept` is an argument, and the calls of `close` are
-- kept in a log, oldest first.
pub mod Store
use cpp_network_homework.Prelude.{
  ℕ, Bool, true, false, Option, none, some, List, [], ◌∷◌, ◌++◌, if◌then◌else◌,
}

-- The field `socket_descriptor_`.
pub record Socket : Type 0 where
  pub descriptor : Option ℕ

-- The arguments of the calls of `close`.
abbrev pub Log : Type 0
Log = List (Option ℕ)

unfoldable pub opened : Socket → Bool
opened s = elim (s.descriptor) [ none ↦ false | some d ↦ true ]

-- `close` calls the system's, on whatever the field holds.
unfoldable pub close : Socket → Log → Socket × Log
close s log = (record { descriptor = none }, log ++ (s.descriptor ∷ []))

unfoldable pub close_if_opened : Socket → Log → Socket × Log
unfolding opened close
close_if_opened s log = if opened s then close s log else (s, log)

-- `open`, with the answer of `socket`.
unfoldable pub open_with : Option ℕ → Socket → Log → Socket × Log
unfolding close_if_opened
open_with answer s log = (record { descriptor = answer }, (close_if_opened s log).1)

-- The constructors: from a domain, from a descriptor, and by a move, which also gives the new
-- state of the object moved from.
unfoldable pub socket_open : Option ℕ → Log → Socket × Log
unfolding open_with
socket_open answer log = open_with answer (record { descriptor = none }) log

unfoldable pub socket_adopt : Option ℕ → Socket
socket_adopt d = record { descriptor = d }

unfoldable pub socket_move : Socket → Socket × Socket
socket_move s = (record { descriptor = s.descriptor }, record { descriptor = none })

-- `operator=` by a move between two objects: the target and the source behind it. Assigned to
-- itself, an object is left alone; `Store.step` makes that test.
unfoldable pub move_assign : Socket → Socket → Log → Socket × Socket × Log
unfolding close_if_opened
move_assign target source log =
    let c = close_if_opened target log in
    (record { descriptor = source.descriptor }, record { descriptor = c.0.descriptor }, c.1)

unfoldable pub destroy : Socket → Log → Log
unfolding close_if_opened
destroy s log = (close_if_opened s log).1
