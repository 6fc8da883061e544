-- ===== src/Memory/FixedPool/Taken.antt =====
-- What becomes of the pool when a block is taken.
use tklb.Base.{
  ℕ, ◌+◌, ◌-◌, ◌^◌, ◌≤◌, ◌<◌, max, ◌≡◌, refl, List, ◌∷◌, Option, none, some, true, false, leb,
  Bool-cases, leb→lt, arith, inl, inr,
}
use tklb.Memory.FixedPool.{FixedPool, write, real_allocation, take_block}
use tklb.Memory.FixedPool.Layout.{
  Block, gap, in_use, total, Tiled, Sized, SameUsed, SameUsed-from, Tiled-agree, Tiled-total,
  in_use-le,
}
use tklb.Memory.FixedPool.Spec.{fill}

-- A request that does not wrap gets a block of whole words, with room for the header before it,
-- and at most 15 bytes more than that, or the smallest block there is.
pub real_allocation_bounds :
    (size : ℕ)
    → 0 < size
    → size ≤ 2 ^ 64 - 16
    → Sized (real_allocation size)
      × (size + 8 ≤ real_allocation size)
      × (real_allocation size ≤ max 16 (size + 15))
unfolding real_allocation
real_allocation_bounds size pos h = ground arith

-- A request of the last 8 sizes wraps round to at most one word: less than any block needs.
pub real_allocation_wraps :
    (size : ℕ) → 2 ^ 64 - 8 ≤ size → size < 2 ^ 64 → real_allocation size ≤ 8
unfolding real_allocation
real_allocation_wraps size lo hi = ground arith

-- What a search that starts at `i` has done, against first fit over the blocks from `i` on.
abbrev pub Outcome :
    FixedPool → ℕ → List Block → Option (ℕ × List Block) → Option (Option ℕ × FixedPool) → Type 0
Outcome p i bs none r = r ≡ some (none, p)
Outcome p i bs (some (ptr, bs')) r =
    (q : FixedPool) × (r ≡ some (some ptr, q))
    × (q.pool_size ≡ p.pool_size)
    × Tiled q.mem i bs' p.pool_size
    × (q.allocated_space + in_use bs ≡ p.allocated_space + in_use bs')
    × ((a : ℕ) → a < i → q.mem a ≡ p.mem a)
    × SameUsed p.mem q.mem i bs

module _ (p : FixedPool) (size i s : ℕ) (bs : List Block) (small : p.pool_size < 2 ^ 63)
    (sized : Sized size) (fits : size ≤ s) (t : Tiled p.mem i (gap s ∷ bs) p.pool_size)
    (load : p.allocated_space ≤ i + in_use bs) where
  room : i + s + total bs ≡ p.pool_size
  room = Tiled-total p.mem (i + s) bs p.pool_size t.2

  used_le : in_use bs ≤ total bs
  used_le = in_use-le bs

  abbrev q : FixedPool
  q = take_block p size i

  below : (a : ℕ) → a < i → q.mem a ≡ p.mem a
  unfolding take_block write
  below a h = ground arith

  above : (a : ℕ) → i + s ≤ a → q.mem a ≡ p.mem a
  unfolding take_block write
  above a h = ground (arith, room, used_le)

  same_size : q.pool_size ≡ p.pool_size
  unfolding take_block
  same_size = ground arith

  after : Tiled q.mem (i + s) bs p.pool_size
  after = Tiled-agree p.mem q.mem (i + s) bs p.pool_size (λ a lo _. above a lo) t.2

  whole : leb s (size + 8) ≡ true → q.mem i ≡ s
  unfolding take_block write
  whole tight = ground (arith, room)

  parts :
      leb s (size + 8) ≡ false
      → (q.mem i ≡ size) × (q.mem (i + size) ≡ 0) × (q.mem (i + size + 8) ≡ s - size)
  unfolding take_block write
  parts loose = ground (arith, room)

  tiled : Tiled q.mem i (fill size s bs) p.pool_size
  tiled = elim (Bool-cases (leb s (size + 8))) [
    | inl tight ↦ rw tight (whole tight, t.1, after)
    | inr loose ↦
        let (e, f, g) = parts loose in
        let lt = leb→lt s (size + 8) loose in
        let rest : i + s ≡ i + size + (s - size) = omega arith in
        rw loose (e, sized, ((f, g), omega arith, rw rest at after))
  ]

  counted : q.allocated_space + in_use bs ≡ p.allocated_space + in_use (fill size s bs)
  unfolding take_block
  counted = ground (arith, room, used_le)

  pub take_block-Outcome :
      Outcome p i (gap s ∷ bs) (some (i + 8, fill size s bs)) (some (some (i + 8), q))
  take_block-Outcome =
      (q, refl, same_size, tiled, counted, below, SameUsed-from p.mem q.mem (i + s) bs above)
