-- ===== src/Http/Chunks.antt =====
-- What the content provider sends.
use cpp_network_homework.Prelude.{
  ℕ, zero, suc, ◌+◌, ◌-◌, ◌≤◌, min, ◌≡◌, refl, sym, ap, subst, ◌∙◌, inl, inr, [], ◌∷◌, ◌++◌, arith,
  ◌==◌, if◌then◌else◌, Bool-cases, length, take, drop, set, length-append, take_all, drop_all,
  take-add, length-take, length-drop, length-set, take-set, take-append, Bytes,
}
use cpp_network_homework.FileServer.Transceiver.Wanted.{drop-min, take-min}
use cpp_network_homework.FileServer.Transceiver.{read}
use cpp_network_homework.FileServer.Transceiver.Blocks.{wanted}
use cpp_network_homework.Http.{Query, limit_to, load, close_block, provide}

-- How httplib asks: for what is left, from behind what it has got, until there is nothing left.
pub pull : ℕ → Bytes → ℕ → ℕ → Bytes
pull zero data_at offset left = []
pull (suc calls) data_at offset left =
    let chunk = provide data_at offset left in
    let more = pull calls data_at (offset + length chunk) (left - length chunk) in
    if left == 0 then [] else chunk ++ more

pub drop_sum : (n m k : ℕ) (xs : Bytes) → k ≡ n + m → drop k xs ≡ drop m (drop n xs)
drop_sum zero m k xs e = ap (λ j. drop j xs) (omega arith)
drop_sum (suc n) m zero xs e = absurd (omega arith)
drop_sum (suc n) m (suc k) [] e = sym (drop_all m [] (omega arith))
drop_sum (suc n) m (suc k) (x ∷ xs) e = drop_sum n m k xs (omega arith)

pull_sends :
    (calls : ℕ) (data_at : Bytes) (offset left : ℕ)
    → offset + left ≤ length data_at
    → left ≤ calls
    → pull calls data_at offset left ≡ take left (drop offset data_at)
unfolding pull provide
pull_sends zero d offset left h l = let z : left ≡ 0 = omega arith in rw z refl
pull_sends (suc calls) d offset left h l = elim (Bool-cases (left == 0)) [
  | inl z ↦ let e : left ≡ 0 = ground arith in rw (z, e) refl
  | inr some_left ↦
      let chunk = take (min left 4) (drop offset d) in
      let k : length chunk ≡ min left 4 =
        omega (arith, length-take (min left 4) (drop offset d), length-drop offset d) in
      let ih =
        pull_sends calls d (offset + min left 4) (left - min left 4) (omega arith) (ground arith) in
      let sum : left ≡ min left 4 + (left - min left 4) = omega arith in
      rw (some_left, k, ih)
        (ap (λ t. chunk ++ take (left - min left 4) t)
            (drop_sum offset (min left 4) (offset + min left 4) d refl)
          ∙ sym (take-add (min left 4) (left - min left 4) (drop offset d))
          ∙ ap (λ j. take j (drop offset d)) (sym sum))
]

-- What the client is to get of a file.
abbrev pub part_for : Query → Bytes → Bytes
part_for q bytes = wanted (record { fict = q.fict; size_fict = q.size_fict }) bytes

-- What a handler is to find in its block, for a part that it took of the file.
abbrev pub IsLoaded : ℕ → Bytes → Bytes → Type 0
IsLoaded count data_at part =
    (take count data_at ≡ part) × (count ≤ length data_at) × (count ≡ length part)

-- `count` bytes from `start` on, read into the block and a NUL put behind them.
filled :
    (count start : ℕ) (bytes block : Bytes)
    → start + count ≤ length bytes
    → length block ≡ length bytes
    → let part = take count (drop start bytes) in
      IsLoaded count (set (part ++ drop (length part) block) count 0) part
filled count start bytes block h e =
    let part = take count (drop start bytes) in
    let n : length part ≡ count =
      omega (arith, length-take count (drop start bytes), length-drop start bytes) in
    (
      take-set count count (part ++ drop (length part) block) 0 (omega arith)
          ∙ take-append count part _ (omega arith)
          ∙ take_all count part (omega arith),
      omega (
        arith,
        length-set (part ++ drop (length part) block) count 0,
        length-append part (drop (length part) block),
        length-drop (length part) block,
      ),
      sym n,
    )

pub load_provided :
    (fresh : ℕ → Bytes) (q : Query) (bytes : Bytes)
    → length (fresh (length bytes)) ≡ length bytes
    → let c = close_block (load fresh q bytes) in IsLoaded c.provided c.data_at (part_for q bytes)
unfolding load read
load_provided fresh q bytes h =
    let total = length bytes in
    let block = fresh total in
    let lim : limit_to total q.size_fict ≡ min q.size_fict total =
      unfold limit_to in ground arith in
    elim (Bool-cases (q.fict == 1)) [
      | inl beans ↦
          let m = min q.size_fict total in
          let part : take (total - m) (drop m bytes) ≡ drop q.size_fict bytes =
            take_all (total - m) (drop m bytes) (omega (arith, length-drop m bytes))
            ∙ drop-min q.size_fict bytes in
          rw (beans, lim)
            (subst (IsLoaded (total - m) _) part (filled (total - m) m bytes block (omega arith) h))
      | inr unequal ↦ elim (Bool-cases (q.fict == 2)) [
        | inl size ↦
            let m = min q.size_fict total in
            rw (unequal, size, lim)
              (subst (IsLoaded m _) (take-min q.size_fict bytes)
                (filled m 0 bytes block (omega arith) h))
        | inr all ↦
            rw (unequal, all)
              (subst (IsLoaded total _) (take_all total bytes (omega arith))
                (filled total 0 bytes block (omega arith) h))
      ]
    ]

-- The calls of the provider give the part of the file that was asked for, exactly: all but the
-- first bytes (`beans`), the first bytes (`size`), or all of it. A call is made for each chunk, as
-- long as something is lacking, and as many calls as there are bytes are enough. `new` gives a
-- block of the size that it is asked for.
pub pull-part_for :
    (fresh : ℕ → Bytes) (q : Query) (bytes : Bytes)
    → length (fresh (length bytes)) ≡ length bytes
    → let c = close_block (load fresh q bytes) in
      pull c.provided c.data_at 0 c.provided ≡ part_for q bytes
pull-part_for fresh q bytes h =
    let p = load_provided fresh q bytes h in
    let c = close_block (load fresh q bytes) in
    pull_sends c.provided c.data_at 0 c.provided (omega arith) (omega arith) ∙ p.0
