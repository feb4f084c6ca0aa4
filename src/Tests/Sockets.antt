-- ===== src/Tests/Sockets.antt =====
-- The owner of a descriptor at concrete inputs.
use cpp_network_homework.Prelude.{◌+◌, ◌≡◌, refl, some, List, [], ◌∷◌, All}
use cpp_network_homework.Socket.{
  opened, close, close_if_opened, open_with, socket_open, socket_adopt, move_assign, destroy,
}
use cpp_network_homework.Socket.Store.{
  dead, Store, Op, make, adopt, assign, destroy_at, slot_at, add, assign_from, destroy_from, step,
  run, acquired,
}
use cpp_network_homework.Socket.Store.Ownership.{count, owned, IsDead, empty_store, run_balanced}

-- Two objects, of which one is moved to the other, and both are destroyed.
abbrev some_ops : List Op
some_ops = make (some 3) ∷ adopt (some 0) ∷ assign 1 0 ∷ destroy_at 1 ∷ destroy_at 0 ∷ []

abbrev some_end : Store
some_end = record { slots = dead ∷ dead ∷ []; log = some 0 ∷ some 3 ∷ [] }

some_ops-run : run some_ops empty_store ≡ some some_end
unfolding run step add slot_at assign_from destroy_from socket_open open_with socket_adopt
    move_assign close_if_opened opened close destroy
some_ops-run = refl

run_balanced_example :
    (owned 3 some_end.slots + count 3 some_end.log ≡ count 3 (acquired some_ops))
    × (All IsDead some_end.slots → count 3 some_end.log ≡ count 3 (acquired some_ops))
run_balanced_example = run_balanced some_ops some_ops-run 3
