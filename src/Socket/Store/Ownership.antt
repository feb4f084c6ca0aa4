-- ===== src/Socket/Store/Ownership.antt =====
-- Under any sequence of the class's operations no descriptor is lost and none is closed twice.
use cpp_network_homework.Prelude.{
  ℕ, zero, suc, ◌+◌, ◌≡◌, refl, sym, ap, subst, ◌∙◌, ◌≢◌, inl, inr, false≢true, Option, none, some,
  List, [], ◌∷◌, ◌++◌, arith, ◌==◌, if◌then◌else◌, ==_iff, Bool-cases, set, All,
}
use cpp_network_homework.Socket.{
  Socket, Log, close, socket_open, socket_adopt, socket_move, move_assign, destroy,
}
use cpp_network_homework.Socket.Store.{
  Slot, dead, live, Store, Op, make, adopt, move_new, assign, close_at, destroy_at, slot_at, add,
  move_from, assign_from, close_from, destroy_from, step, run, acquired,
}

-- How often `d` stands in a list of descriptors, and how many objects own it.
abbrev pub is_fd : ℕ → Option ℕ → ℕ
is_fd d none = 0
is_fd d (some e) = if e == d then 1 else 0

abbrev pub count : ℕ → List (Option ℕ) → ℕ
count d [] = 0
count d (o ∷ l) = is_fd d o + count d l

abbrev pub held : ℕ → Slot → ℕ
held d dead = 0
held d (live s) = is_fd d s.descriptor

abbrev pub owned : ℕ → List Slot → ℕ
owned d [] = 0
owned d (x ∷ ss) = held d x + owned d ss

count-append : (d : ℕ) (l m : List (Option ℕ)) → count d (l ++ m) ≡ count d l + count d m
count-append d [] m = omega arith
count-append d (o ∷ l) m = omega (arith, count-append d l m)

owned-append : (d : ℕ) (l m : List Slot) → owned d (l ++ m) ≡ owned d l + owned d m
owned-append d [] m = omega arith
owned-append d (o ∷ l) m = omega (arith, owned-append d l m)

owned-set :
    (d : ℕ) (ss : List Slot) (i : ℕ) (x : Slot) {s : Socket}
    → slot_at ss i ≡ some s
    → owned d (set ss i x) + is_fd d s.descriptor ≡ owned d ss + held d x
unfolding slot_at
owned-set d [] i x e = cc
owned-set d (dead ∷ ss) zero x e = cc
owned-set d (live t ∷ ss) zero x {s} e = let same : t ≡ s = cc in rw same (omega arith)
owned-set d (dead ∷ ss) (suc i) x e = omega (arith, owned-set d ss i x e)
owned-set d (live t ∷ ss) (suc i) x e = omega (arith, owned-set d ss i x e)

step_over : (x : Slot) (ss : List Slot) (j : ℕ) → slot_at (x ∷ ss) (suc j) ≡ slot_at ss j
unfolding slot_at
step_over dead ss j = refl
step_over (live s) ss j = refl

slot_at-set_ne :
    (ss : List Slot) (i j : ℕ) (x : Slot) → i ≢ j → slot_at (set ss i x) j ≡ slot_at ss j
unfolding slot_at
slot_at-set_ne [] i j x h = refl
slot_at-set_ne (y ∷ ss) zero zero x h = absurd (h refl)
slot_at-set_ne (dead ∷ ss) (suc i) zero x h = refl
slot_at-set_ne (live t ∷ ss) (suc i) zero x h = refl
slot_at-set_ne (dead ∷ ss) (suc i) (suc j) x h = slot_at-set_ne ss i j x (λ e. h (ap suc e))
slot_at-set_ne (live t ∷ ss) (suc i) (suc j) x h = slot_at-set_ne ss i j x (λ e. h (ap suc e))
slot_at-set_ne (dead ∷ ss) zero (suc j) x h = step_over x ss j
slot_at-set_ne (live t ∷ ss) zero (suc j) x h = step_over x ss j

-- What `destroy` closes, and what a move by `operator=` closes, is what the target owned.
count-destroy :
    (d : ℕ) (s : Socket) (log : Log) → count d (destroy s log) ≡ count d log + is_fd d s.descriptor
unfolding destroy
count-destroy d s log = ground (arith, count-append d log (s.descriptor ∷ []))

move_assign-count :
    (d : ℕ) (t s : Socket) (log : Log)
    → let m = move_assign t s log in
      held d (live m.0) + held d (live m.1) + count d m.2
      ≡ is_fd d t.descriptor + is_fd d s.descriptor + count d log
unfolding move_assign
move_assign-count d t s log = ground (arith, count-append d log (t.descriptor ∷ []))

-- `d` is owned or has been closed as often as it came in, counted from a state on.
abbrev Balance : ℕ → List (Option ℕ) → Store → Option Store → Type 0
Balance d fresh st none = Unit
Balance d fresh st (some st') =
    owned d st'.slots + count d st'.log ≡ owned d st.slots + count d st.log + count d fresh

close_from-Balance :
    (d : ℕ) (st : Store) (i : ℕ) (o : Option Socket)
    → slot_at st.slots i ≡ o
    → Balance d [] st (close_from st i o)
unfolding close_from close
close_from-Balance d st i none e = tt
close_from-Balance d st i (some s) e = omega (
  arith,
  owned-set d st.slots i (live (record { descriptor = none })) e,
  count-append d st.log (s.descriptor ∷ []),
)

destroy_from-Balance :
    (d : ℕ) (st : Store) (i : ℕ) (o : Option Socket)
    → slot_at st.slots i ≡ o
    → Balance d [] st (destroy_from st i o)
unfolding destroy_from
destroy_from-Balance d st i none e = tt
destroy_from-Balance d st i (some s) e =
    omega (arith, owned-set d st.slots i dead e, count-destroy d s st.log)

move_from-Balance :
    (d : ℕ) (st : Store) (i : ℕ) (o : Option Socket)
    → slot_at st.slots i ≡ o
    → Balance d [] st (move_from st i o)
unfolding move_from socket_move
move_from-Balance d st i none e = tt
move_from-Balance d st i (some s) e = omega (
  arith,
  owned-set d st.slots i (live (record { descriptor = none })) e,
  owned-append d (set st.slots i (live (record { descriptor = none }))) (live s ∷ []),
)

assign_from-Balance :
    (d : ℕ) (st : Store) (i j : ℕ) (o p : Option Socket)
    → slot_at st.slots i ≡ o
    → slot_at st.slots j ≡ p
    → Balance d [] st (assign_from st i j o p)
unfolding assign_from
assign_from-Balance d st i j none p e f = tt
assign_from-Balance d st i j (some t) none e f = tt
assign_from-Balance d st i j (some t) (some s) e f = elim (Bool-cases (i == j)) [
  | inl same ↦ rw same (omega arith)
  | inr other ↦
      let ne : i ≢ j = λ q. false≢true (sym other ∙ (==_iff i j).1 q) in
      let m = move_assign t s st.log in
      rw other (
        omega (
          arith,
          owned-set d st.slots i (live m.0) e,
          owned-set d (set st.slots i (live m.0)) j (live m.1)
              (slot_at-set_ne st.slots i j (live m.0) ne ∙ f),
          move_assign-count d t s st.log,
        ))
]

step-Balance : (d : ℕ) (op : Op) (st : Store) → Balance d (acquired (op ∷ [])) st (step op st)
unfolding step acquired socket_open add socket_adopt
step-Balance d (make o) st =
    omega (arith, owned-append d st.slots (live (record { descriptor = o }) ∷ []))
step-Balance d (adopt o) st =
    omega (arith, owned-append d st.slots (live (record { descriptor = o }) ∷ []))
step-Balance d (move_new i) st = move_from-Balance d st i (slot_at st.slots i) refl
step-Balance d (assign i j) st =
    assign_from-Balance d st i j (slot_at st.slots i) (slot_at st.slots j) refl refl
step-Balance d (close_at i) st = close_from-Balance d st i (slot_at st.slots i) refl
step-Balance d (destroy_at i) st = destroy_from-Balance d st i (slot_at st.slots i) refl

acquired-cons :
    (d : ℕ) (op : Op) (ops : List Op)
    → count d (acquired (op ∷ ops)) ≡ count d (acquired (op ∷ [])) + count d (acquired ops)
unfolding acquired
acquired-cons d (make o) ops = omega arith
acquired-cons d (adopt o) ops = omega arith
acquired-cons d (move_new i) ops = omega arith
acquired-cons d (assign i j) ops = omega arith
acquired-cons d (close_at i) ops = omega arith
acquired-cons d (destroy_at i) ops = omega arith

Balance-trans :
    (d : ℕ) (f g h : List (Option ℕ)) (st st' : Store) (o : Option Store)
    → count d h ≡ count d f + count d g
    → Balance d f st (some st')
    → Balance d g st' o
    → Balance d h st o
Balance-trans d f g h st st' none e p q = tt
Balance-trans d f g h st st' (some u) e p q = omega arith

run-Balance : (d : ℕ) (ops : List Op) (st : Store) → Balance d (acquired ops) st (run ops st)
unfolding run
run-Balance d [] st = unfold acquired in omega arith
run-Balance d (op ∷ ops) st = go (step op st) (step-Balance d op st) (λ u. run-Balance d ops u)
  where
    go :
        (o : Option Store)
        → Balance d (acquired (op ∷ [])) st o
        → ((u : Store) → Balance d (acquired ops) u (run ops u))
        → Balance d (acquired (op ∷ ops)) st (elim o [ none ↦ none | some u ↦ run ops u ])
    go none h ih = tt
    go (some u) h ih =
        Balance-trans d (acquired (op ∷ [])) (acquired ops) (acquired (op ∷ ops)) st u (run ops u)
          (acquired-cons d op ops) h (ih u)

abbrev pub IsDead : Slot → Type 0
IsDead dead = Unit
IsDead (live s) = ⊥

owned-IsDead : (d : ℕ) (ss : List Slot) → All IsDead ss → owned d ss ≡ 0
owned-IsDead d [] h = refl
owned-IsDead d (dead ∷ ss) (h, t) = omega (arith, owned-IsDead d ss t)
owned-IsDead d (live s ∷ ss) (h, t) = absurd h

abbrev pub empty_store : Store
empty_store = record { slots = []; log = [] }

-- After any operations of the class, a descriptor has as many owners, and has been closed as often,
-- together, as it came in by a constructor: none is lost, and none that came in once is closed
-- twice or has two owners. Once every object is destroyed, each was closed as often as it came in.
pub run_balanced :
    (ops : List Op) {st : Store}
    → run ops empty_store ≡ some st
    → (d : ℕ)
    → (owned d st.slots + count d st.log ≡ count d (acquired ops))
      × (All IsDead st.slots → count d st.log ≡ count d (acquired ops))
run_balanced ops {st} e d =
    let b : owned d st.slots + count d st.log ≡ count d (acquired ops) = balance in
    (b, λ h. omega (arith, owned-IsDead d st.slots h))
  where
    balance : owned d st.slots + count d st.log ≡ count d (acquired ops)
    balance =
        let h : Balance d (acquired ops) empty_store (some st) =
          subst (Balance d (acquired ops) empty_store) e (run-Balance d ops empty_store) in
        omega arith
