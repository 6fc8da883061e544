-- ===== src/Memory/FixedPool/Free.antt =====
-- `FixedPool::deallocate` gives one block back, and so undoes `allocate`.
use tklb.Base.{ℕ, ◌+◌, ◌-◌, ◌≤◌, ◌≡◌, refl, List, [], ◌∷◌, none, some, arith}
use tklb.Memory.FixedPool.{FixedPool, write, deallocate}
use tklb.Memory.FixedPool.Layout.{
  Block, gap, Sized, IsValid, SameUsed, Owns, Owns-bounds, Tiled-total, in_use-le,
}
use tklb.Memory.FixedPool.Splice.{Edits, Spliced, Spliced-of_Owns}
use tklb.Memory.FixedPool.Spec.{release}

module _ (p : FixedPool) (bs : List Block) (off s : ℕ) (v : IsValid p bs)
    (o : Owns off s 0 bs) where
  abbrev q : FixedPool
  q = deallocate p (some (off + 8))

  bounds : (0 ≤ off) × (off + s ≤ p.pool_size) × Sized s × (p.mem off ≡ s)
  bounds = Owns-bounds p.mem off s 0 bs p.pool_size v.tiled o

  same_size : q.pool_size ≡ p.pool_size
  unfolding deallocate
  same_size = refl

  edits : Edits p.mem q.mem off s (gap s ∷ [])
  unfolding deallocate write
  edits = record {
    below = λ a h. ground (arith, bounds, start);
    above = λ a h. ground (arith, bounds, start);
    inside = ground (arith, bounds, start);
  }
    where
      start : off + 8 - 8 ≡ off
      start = omega arith

  spliced : Spliced p.mem q.mem off s (gap s ∷ []) 0 bs p.pool_size
  spliced = Spliced-of_Owns p.mem q.mem off s (gap s ∷ []) p.pool_size edits 0 bs v.tiled o

  counted : q.allocated_space + s ≡ p.allocated_space
  unfolding deallocate
  counted =
      let start : off + 8 - 8 ≡ off = omega arith in
      rw start (
        omega (
          arith,
          bounds,
          v.counted,
          spliced.counted,
          v.small,
          in_use-le bs,
          Tiled-total p.mem 0 bs p.pool_size v.tiled,
        ))

  -- `deallocate` of a block in use makes exactly that block free: the pool is valid again, its byte
  -- count falls by the block's size, and no other block in use was written.
  pub deallocate-release :
      IsValid q (release off s bs)
      × (q.allocated_space + s ≡ p.allocated_space)
      × SameUsed p.mem q.mem 0 (release off s bs)
  deallocate-release = (
    record {
      small = rw same_size v.small;
      tiled = rw same_size spliced.tiled;
      counted = omega (arith, counted, spliced.counted, v.counted);
    },
    counted,
    spliced.same,
  )

-- nullptr is ignored.
deallocate-none : (p : FixedPool) → deallocate p none ≡ p
unfolding deallocate
deallocate-none p = refl
