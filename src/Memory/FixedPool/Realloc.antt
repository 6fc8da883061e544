-- ===== src/Memory/FixedPool/Realloc.antt =====
-- `FixedPool::reallocate`.
use tklb.Base.{
  ℕ, ◌+◌, ◌-◌, ◌*◌, ◌/◌, ◌%◌, ◌^◌, ◌≤◌, ◌<◌, ◌≡◌, ap, List, [], ◌∷◌, Option, none, some, arith, inl,
  inr, ◌⊎◌, ◌∙◌, leb, le→leb, lt→leb, add64, false, ◌==◌, ==→ne, if◌then◌else◌, Bool-cases,
}
use tklb.Memory.FixedPool.{
  FixedPool, real_allocation, write, deallocate, allocate, reallocate, new_size, copy, move_block,
}
use tklb.Memory.FixedPool.Layout.{
  Block, used, gap, in_use, Tiled, Sized, IsValid, SameUsed, Owns, Owns-bounds, write_ne,
}
use tklb.Memory.FixedPool.Splice.{Edits, Spliced-of_Owns}
use tklb.Memory.FixedPool.Alloc.{Allocates, allocate-Allocates}
use tklb.Memory.FixedPool.Moved.{Apart, first_fit-Apart, copy_inside, copy_outside}
use tklb.Memory.FixedPool.Taken.{real_allocation_bounds}
use tklb.Memory.FixedPool.Spec.{first_fit, release, trim}

-- The size holds the request and the header, in whole words, with 1 to 8 bytes to spare.
pub new_size_bounds :
    (size : ℕ)
    → size ≤ 2 ^ 64 - 17
    → (size + 8 < new_size size) × (new_size size ≤ size + 16) × (new_size size % 8 ≡ 0)
unfolding new_size
new_size_bounds size h = omega arith

module _ (p : FixedPool) (bs : List Block) (off s size : ℕ) (v : IsValid p bs) (o : Owns off s 0 bs)
    (small : size ≤ 2 ^ 64 - 17) where
  bounds : (0 ≤ off) × (off + s ≤ p.pool_size) × Sized s × (p.mem off ≡ s)
  bounds = Owns-bounds p.mem off s 0 bs p.pool_size v.tiled o

  -- A block that has the new size, but not a header more, stays as it is.
  pub reallocate-keep :
      new_size size ≤ s
      → s ≤ new_size size + 8
      → reallocate p (some (off + 8)) size ≡ some (some (off + 8), p)
  unfolding reallocate
  reallocate-keep fits tight =
      let start : off + 8 - 8 ≡ off = omega arith in ground (arith, bounds, v.small, start)

  -- The state that shrinking a block leaves.
  abbrev shrunk : FixedPool
  shrunk =
      let n = new_size size in
      record p { mem = write (write (write p.mem off n) (off + n) 0) (off + n + 8) (s - n) }

  reallocate-shrunk :
      new_size size + 8 < s → reallocate p (some (off + 8)) size ≡ some (some (off + 8), shrunk)
  unfolding reallocate
  reallocate-shrunk loose =
      let start : off + 8 - 8 ≡ off = omega arith in
      let loose_test : leb s (add64 (new_size size) 8) ≡ false =
        lt→leb s (add64 (new_size size) 8) (omega (arith, v.small, bounds)) in
      rw (start, bounds.3, le→leb (new_size size) s (omega arith), loose_test)

  edits :
      new_size size + 8 < s
      → Edits p.mem shrunk.mem off s (used (new_size size) ∷ gap (s - new_size size) ∷ [])
  unfolding write
  edits loose =
      let nb = new_size_bounds size small in
      record {
        below = λ a h. ground (arith, bounds);
        above = λ a h. ground (arith, bounds, nb);
        inside = ground (arith, bounds, nb);
      }

  -- Shrinking a block returns the same pointer, leaves the block its first `new_size size` bytes with
  -- their content, makes the rest a free block and writes no other block; the byte count does not
  -- change, so that it exceeds the bytes in use by the bytes that were freed.
  pub reallocate-trim :
      new_size size + 8 < s
      → (q : FixedPool) × (reallocate p (some (off + 8)) size ≡ some (some (off + 8), q))
        × Tiled q.mem 0 (trim off (new_size size) s bs) q.pool_size
        × SameUsed p.mem q.mem 0 (release off s bs)
        × ((a : ℕ) → off + 8 ≤ a → a < off + new_size size → q.mem a ≡ p.mem a)
        × (q.allocated_space ≡ in_use (trim off (new_size size) s bs) + (s - new_size size))
  reallocate-trim loose =
      let r = Spliced-of_Owns p.mem shrunk.mem off s _ p.pool_size (edits loose) 0 bs v.tiled o in
      (
        shrunk,
        reallocate-shrunk loose,
        r.tiled,
        r.same,
        λ a lo hi. kept a lo hi,
        omega (arith, r.counted, v.counted),
      )
    where
      kept : (a : ℕ) → off + 8 ≤ a → a < off + new_size size → shrunk.mem a ≡ p.mem a
      kept a lo hi =
          write_ne _ _ _ a (omega arith)
          ∙ write_ne _ _ _ a (omega arith)
          ∙ write_ne p.mem off (new_size size) a (omega arith)

module _ (p : FixedPool) (bs : List Block) (off s size : ℕ) (v : IsValid p bs) (o : Owns off s 0 bs)
    (grow : s < new_size size) where
  -- Where there is no room for a larger block, nullptr comes back and the pool stays as it is.
  pub reallocate-none :
      allocate p size ≡ some (none, p) → reallocate p (some (off + 8)) size ≡ some (none, p)
  unfolding reallocate move_block
  reallocate-none e =
      let start : off + 8 - 8 ≡ off = omega arith in
      let b = Owns-bounds p.mem off s 0 bs p.pool_size v.tiled o in
      rw (start, b.3, lt→leb (new_size size) s grow, e)

  abbrev copied : ℕ → FixedPool → FixedPool
  copied ptr q = record q { mem = copy q.mem (off + 8) ptr ((s - 8) / 8) }

  abbrev after : ℕ → FixedPool → ℕ → FixedPool
  after ptr q k =
      deallocate (record q { mem = copy q.mem (off + 8) ptr ((k - 8) / 8) }) (some (off + 8))

  abbrev moved : ℕ → FixedPool → FixedPool
  moved ptr q = deallocate (copied ptr q) (some (off + 8))

  dealloc_outside :
      (ptr : ℕ) (q : FixedPool) (a : ℕ)
      → (a < off) ⊎ (off + s ≤ a)
      → (moved ptr q).mem a ≡ copy q.mem (off + 8) ptr ((s - 8) / 8) a
  unfolding deallocate write
  dealloc_outside ptr q a h =
      let start : off + 8 - 8 ≡ off = omega arith in
      let b = Owns-bounds p.mem off s 0 bs p.pool_size v.tiled o in ground (arith, start, b)

  dealloc_inside :
      (ptr : ℕ) (q : FixedPool) (k : ℕ)
      → 0 < k
      → (moved ptr q).mem (off + 8 + 8 * k)
        ≡ copy q.mem (off + 8) ptr ((s - 8) / 8) (off + 8 + 8 * k)
  unfolding deallocate write
  dealloc_inside ptr q k pos = let start : off + 8 - 8 ≡ off = omega arith in ground (arith, start)

  smaller :
      (n m : ℕ) (found : Option (ℕ × List Block))
      → n ≤ m
      → Apart off s m found
      → Apart off s n found
  smaller n m none le h = tt
  smaller n m (some (ptr, bs')) le (inl h) = inl (omega arith)
  smaller n m (some (ptr, bs')) le (inr h) = inr h

  found-Apart :
      size ≤ 2 ^ 64 - 17
      → Apart off s s (if size == 0 then none else first_fit (real_allocation size) 0 bs)
  found-Apart small = elim (Bool-cases (size == 0)) [
    | inl nothing ↦ rw nothing tt
    | inr something ↦
        let b = Owns-bounds p.mem off s 0 bs p.pool_size v.tiled o in
        let n = new_size_bounds size small in
        let r = real_allocation_bounds size (omega (arith, ==→ne size 0 something)) (omega arith) in
        rw something (
          smaller s (real_allocation size) (first_fit (real_allocation size) 0 bs)
            (omega (arith, b.2, n, r, grow))
            (first_fit-Apart p.mem off s (real_allocation size) 0 bs p.pool_size v.tiled o))
  ]

  given-Apart :
      (found : Option (ℕ × List Block)) (ptr : ℕ) (q : FixedPool)
      → Apart off s s found
      → Allocates p bs found (some (some ptr, q))
      → (ptr + s ≤ off + 8) ⊎ (off + s + 8 ≤ ptr)
  given-Apart none ptr q h a = absurd (cc)
  given-Apart (some (ptr', bs')) ptr q h (q', e, valid, same) = let e₀ : ptr ≡ ptr' = cc in rw e₀ h

  -- What `allocate` gives does not overlap the words of the old block, and has room for them.
  allocate-Apart :
      (ptr : ℕ) (q : FixedPool)
      → size ≤ 2 ^ 64 - 17
      → allocate p size ≡ some (some ptr, q)
      → (ptr + 8 * ((s - 8) / 8) ≤ off + 8) ⊎ (off + 8 + 8 * ((s - 8) / 8) ≤ ptr)
  allocate-Apart ptr q small e =
      let b = Owns-bounds p.mem off s 0 bs p.pool_size v.tiled o in
      elim (given-Apart (if size == 0 then none else first_fit (real_allocation size) 0 bs) ptr q
        (found-Apart small) (rw e at (allocate-Allocates p bs size v (omega arith)))) [
          | inl h ↦ inl (omega arith)
          | inr h ↦ inr (omega (arith, b.2))
        ]

  -- Growing a block of a well formed pool by a request of at most 2^64 - 17 bytes, for which `allocate` finds a
  -- block, returns the new pointer. But the copy runs from the new block to the old one: each word of the old
  -- space behind the first is then what stood in the new block, and every word outside the old block, the new
  -- block's too, is as `allocate` left it.
  pub reallocate-move :
      (ptr : ℕ) (q : FixedPool)
      → size ≤ 2 ^ 64 - 17
      → allocate p size ≡ some (some ptr, q)
      → (r : FixedPool) × (reallocate p (some (off + 8)) size ≡ some (some ptr, r))
        × ((a : ℕ) → (a < off) ⊎ (off + s ≤ a) → r.mem a ≡ q.mem a)
        × ((k : ℕ) → 0 < k → k < (s - 8) / 8 → r.mem (off + 8 + 8 * k) ≡ q.mem (ptr + 8 * k))
  unfolding reallocate move_block
  reallocate-move ptr q small e =
      let start : off + 8 - 8 ≡ off = omega arith in
      let b = Owns-bounds p.mem off s 0 bs p.pool_size v.tiled o in
      (
        moved ptr q,
        rw (start, b.3, lt→leb (new_size size) s grow, e)
            (ap {B = Option (Option ℕ × FixedPool)} (λ k. some (some ptr, after ptr q k)) old),
        λ a h.
            dealloc_outside ptr q a h ∙ copy_outside q.mem (off + 8) ptr ((s - 8) / 8) a (room a h),
        λ k pos lt.
            dealloc_inside ptr q k pos
            ∙ copy_inside q.mem (off + 8) ptr ((s - 8) / 8) k lt (allocate-Apart ptr q small e),
      )
    where
      old : p.mem (off + 8 - 8) ≡ s
      old =
          let start : off + 8 - 8 ≡ off = omega arith in
          let b = Owns-bounds p.mem off s 0 bs p.pool_size v.tiled o in rw start b.3

      room : (a : ℕ) → (a < off) ⊎ (off + s ≤ a) → (a < off + 8) ⊎ (off + 8 + 8 * ((s - 8) / 8) ≤ a)
      room a (inl h) = inl (omega arith)
      room a (inr h) =
          let b = Owns-bounds p.mem off s 0 bs p.pool_size v.tiled o in inr (omega arith)
