-- ===== src/Socket/Store.antt =====
-- The objects of a program that uses the class, numbered as they are made, under any sequence of
-- the class's operations.
pub mod Ownership
use cpp_network_homework.Prelude.{
  ℕ, zero, suc, Option, none, some, List, [], ◌∷◌, ◌++◌, ◌==◌, if◌then◌else◌, set,
}
use cpp_network_homework.Socket.{
  Socket, Log, close, socket_open, socket_adopt, socket_move, move_assign, destroy,
}

pub data Slot : Type 0 where
  dead : Slot
  live : Socket → Slot

pub record Store : Type 0 where
  pub slots : List Slot
  pub log : Log

-- The numbers name objects; an option is what the operating system answers.
pub data Op : Type 0 where
  make : Option ℕ → Op
  adopt : Option ℕ → Op
  move_new : ℕ → Op
  assign : ℕ → ℕ → Op
  close_at : ℕ → Op
  destroy_at : ℕ → Op

unfoldable pub slot_at : List Slot → ℕ → Option Socket
slot_at [] i = none
slot_at (dead ∷ ss) zero = none
slot_at (live s ∷ ss) zero = some s
slot_at (x ∷ ss) (suc i) = slot_at ss i

-- A new object takes the next number.
unfoldable pub add : Store → Socket → Log → Store
add st s log = record { slots = st.slots ++ (live s ∷ []); log = log }

-- The effect on an object that is alive, and `none` where a number names no such object.
pub move_from : Store → ℕ → Option Socket → Option Store
move_from st i none = none
move_from st i (some s) =
    let m = socket_move s in
    some (record { slots = set st.slots i (live m.1) ++ (live m.0 ∷ []); log = st.log })

unfoldable pub assign_from : Store → ℕ → ℕ → Option Socket → Option Socket → Option Store
assign_from st i j (some t) (some s) =
    let m = move_assign t s st.log in
    some (
      if i == j
      then st
      else record { slots = set (set st.slots i (live m.0)) j (live m.1); log = m.2 })
assign_from st i j _ _ = none

pub close_from : Store → ℕ → Option Socket → Option Store
close_from st i none = none
close_from st i (some s) =
    let c = close s st.log in some (record { slots = set st.slots i (live c.0); log = c.1 })

unfoldable pub destroy_from : Store → ℕ → Option Socket → Option Store
destroy_from st i none = none
destroy_from st i (some s) = some (record { slots = set st.slots i dead; log = destroy s st.log })

unfoldable pub step : Op → Store → Option Store
step (make d) st = let m = socket_open d st.log in some (add st m.0 m.1)
step (adopt d) st = some (add st (socket_adopt d) st.log)
step (move_new i) st = move_from st i (slot_at st.slots i)
step (assign i j) st = assign_from st i j (slot_at st.slots i) (slot_at st.slots j)
step (close_at i) st = close_from st i (slot_at st.slots i)
step (destroy_at i) st = destroy_from st i (slot_at st.slots i)

unfoldable pub run : List Op → Store → Option Store
run [] st = some st
run (op ∷ ops) st = elim (step op st) [ none ↦ none | some st' ↦ run ops st' ]

-- The descriptors that the operations bring in.
pub acquired : List Op → List (Option ℕ)
acquired [] = []
acquired (make d ∷ ops) = d ∷ acquired ops
acquired (adopt d ∷ ops) = d ∷ acquired ops
acquired (_ ∷ ops) = acquired ops
