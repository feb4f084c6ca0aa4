-- ===== src/Http/Overflow.antt =====
-- Where the handler of `/get` writes its NUL.
use cpp_network_homework.Prelude.{ℕ, ◌<◌, ◌≡◌, ◌↔◌, ◌⊎◌, arith, length, Bytes}
use cpp_network_homework.Http.{Query, limit_to, load}

-- For a file that is not empty, the NUL is written inside the block exactly when a part of the
-- file is asked for that is not all of it: some bytes left out at the front, or fewer than all
-- taken; otherwise it is written behind the block.
pub load_bounds :
    (fresh : ℕ → Bytes) (q : Query) (bytes : Bytes)
    → 0 < length bytes
    → let c = load fresh q bytes in
      (c.nul_at < c.allocated)
      ↔ ((q.fict ≡ 1) × (0 < q.size_fict) ⊎ (q.fict ≡ 2) × (q.size_fict < length bytes))
unfolding load limit_to
load_bounds fresh q bytes h = ground arith
