-- ===== src/Memory/FixedPool/Alloc.antt =====
-- `FixedPool::allocate` is first fit.
use tklb.Base.{
  ℕ, zero, suc, ◌+◌, ◌-◌, ◌^◌, ◌≤◌, ◌<◌, ◌≡◌, List, [], ◌∷◌, Option, none, some, true, false, leb,
  Bool-cases, leb→le, le→ltb, ==→ne, ◌==◌, if◌then◌else◌, refl, arith, inl, inr,
}
use tklb.Memory.FixedPool.{FixedPool, real_allocation, take_block, allocate_loop, allocate}
use tklb.Memory.FixedPool.Layout.{
  Block, used, gap, in_use, Tiled, Sized, IsValid, SameUsed, Tiled-total,
}
use tklb.Memory.FixedPool.Spec.{first_fit, keep}
use tklb.Memory.FixedPool.Taken.{real_allocation_bounds, Outcome, take_block-Outcome}

keep-Outcome-used :
    (p : FixedPool) (i s : ℕ) (bs : List Block) (found : Option (ℕ × List Block))
    (r : Option (Option ℕ × FixedPool))
    → Tiled p.mem i (used s ∷ bs) p.pool_size
    → Outcome p (i + s) bs found r
    → Outcome p i (used s ∷ bs) (keep (used s) found) r
keep-Outcome-used p i s bs none r t o = o
keep-Outcome-used p i s bs (some (ptr, bs')) r t (q, e, size, tiled, counted, below, same) = (
  q,
  e,
  size,
  (rw (below i (omega arith)) t.0, t.1, tiled),
  omega arith,
  λ a h. below a (omega arith),
  (λ a lo hi. below a hi, same),
)

keep-Outcome-gap :
    (p : FixedPool) (i s : ℕ) (bs : List Block) (found : Option (ℕ × List Block))
    (r : Option (Option ℕ × FixedPool))
    → Tiled p.mem i (gap s ∷ bs) p.pool_size
    → Outcome p (i + s) bs found r
    → Outcome p i (gap s ∷ bs) (keep (gap s) found) r
keep-Outcome-gap p i s bs none r t o = o
keep-Outcome-gap p i s bs (some (ptr, bs')) r t (q, e, size, tiled, counted, below, same) = (
  q,
  e,
  size,
  ((rw (below i (omega arith)) t.0.0, rw (below (i + 8) (omega arith)) t.0.1), t.1, tiled),
  omega arith,
  λ a h. below a (omega arith),
  same,
)

module _ (fuel : ℕ) (p : FixedPool) (size i s : ℕ) (inside : i < p.pool_size) where
  step_used :
      p.mem i ≡ s
      → 0 < s
      → i + s < 2 ^ 64
      → allocate_loop (suc fuel) p size i ≡ allocate_loop fuel p size (i + s)
  unfolding allocate_loop
  step_used e pos fits = ground arith

  step_take :
      p.mem i ≡ 0
      → p.mem (i + 8) ≡ s
      → leb size s ≡ true
      → allocate_loop (suc fuel) p size i ≡ some (some (i + 8), take_block p size i)
  unfolding allocate_loop
  step_take e f fits = ground arith

  step_gap :
      p.mem i ≡ 0
      → p.mem (i + 8) ≡ s
      → 0 < s
      → i + s < 2 ^ 64
      → leb size s ≡ false
      → allocate_loop (suc fuel) p size i ≡ allocate_loop fuel p size (i + s)
  unfolding allocate_loop
  step_gap e f pos fits small = ground arith

-- With fuel for every byte that is left, the loop does what first fit does.
allocate_loop-Outcome :
    (fuel : ℕ) (p : FixedPool) (size i : ℕ) (bs : List Block)
    → p.pool_size < 2 ^ 63
    → Sized size
    → Tiled p.mem i bs p.pool_size
    → p.allocated_space ≤ i + in_use bs
    → p.pool_size < i + fuel
    → Outcome p i bs (first_fit size i bs) (allocate_loop fuel p size i)
unfolding allocate_loop
allocate_loop-Outcome zero p size i bs small sized t load enough =
    absurd (omega (arith, Tiled-total p.mem i bs p.pool_size t))
allocate_loop-Outcome (suc fuel) p size i [] small sized t load enough =
    rw (le→ltb i p.pool_size (omega arith))
allocate_loop-Outcome (suc fuel) p size i (used s ∷ bs) small sized t load enough =
    let room = Tiled-total p.mem (i + s) bs p.pool_size t.2 in
    rw (step_used fuel p size i s (omega arith) t.0 (omega arith) (omega arith)) (
      keep-Outcome-used p i s bs (first_fit size (i + s) bs) _ t
        (allocate_loop-Outcome fuel p size (i + s) bs small sized t.2 (omega arith) (omega arith)))
allocate_loop-Outcome (suc fuel) p size i (gap s ∷ bs) small sized t load enough =
    let room = Tiled-total p.mem (i + s) bs p.pool_size t.2 in
    elim (Bool-cases (leb size s)) [
      | inl fits ↦
          rw (step_take fuel p size i s (omega arith) t.0.0 t.0.1 fits, fits)
            (take_block-Outcome p size i s bs small sized (leb→le size s fits) t load)
      | inr tight ↦
          rw
            (
              step_gap fuel p size i s (omega arith) t.0.0 t.0.1 (omega arith) (omega arith) tight,
              tight,
            )
            (keep-Outcome-gap p i s bs (first_fit size (i + s) bs) _ t (
              allocate_loop-Outcome fuel p size (i + s) bs small sized t.2 (omega arith)
                (omega arith)))
    ]

-- What `allocate` promises of a pool that consists of the blocks `bs`, where first fit says `found`.
abbrev pub Allocates :
    FixedPool → List Block → Option (ℕ × List Block) → Option (Option ℕ × FixedPool) → Type 0
Allocates p bs none r = r ≡ some (none, p)
Allocates p bs (some (ptr, bs')) r =
    (q : FixedPool) × (r ≡ some (some ptr, q)) × IsValid q bs' × SameUsed p.mem q.mem 0 bs

finish :
    (p : FixedPool) (bs : List Block) (found : Option (ℕ × List Block))
    (r : Option (Option ℕ × FixedPool))
    → IsValid p bs
    → Outcome p 0 bs found r
    → Allocates p bs found r
finish p bs none r v o = o
finish p bs (some (ptr, bs')) r v (q, e, size, tiled, counted, below, same) = (
  q,
  e,
  record { small = omega arith; tiled = rw size tiled; counted = omega (arith, v.counted) },
  same,
)

-- For a request of at most 2^64 - 16 bytes, which does not wrap with its header, `allocate` of a well formed
-- pool ends. For 0 bytes it fails. For more it is first fit with the size that `real_allocation` gives: it
-- fails exactly where first fit does, and else returns first fit's block, the pool then consists of first
-- fit's blocks with the right byte count, and no block in use was written. Where it fails the pool stays as
-- it is.
pub allocate-Allocates :
    (p : FixedPool) (bs : List Block) (requested : ℕ)
    → IsValid p bs
    → requested ≤ 2 ^ 64 - 16
    → Allocates p bs
        (if requested == 0 then none else first_fit (real_allocation requested) 0 bs)
        (allocate p requested)
unfolding allocate
allocate-Allocates p bs requested v h = elim (Bool-cases (requested == 0)) [
  | inl nothing ↦ rw nothing refl
  | inr something ↦
      let pos : 0 < requested = omega (arith, ==→ne requested 0 something) in
      rw something (
        finish p bs (first_fit (real_allocation requested) 0 bs) _ v (
          allocate_loop-Outcome (suc p.pool_size) p (real_allocation requested) 0 bs v.small
            (real_allocation_bounds requested pos h).0 v.tiled (omega (arith, v.counted))
            (omega arith)))
]
