-- ===== src/Memory/FixedPool/Usable.antt =====
-- What a client gets from `allocate`: an aligned pointer to enough bytes, in a block of its own
-- that `deallocate` takes back.
use tklb.Base.{
  ℕ, ◌+◌, ◌-◌, ◌%◌, ◌^◌, ◌≤◌, ◌<◌, ◌≡◌, refl, List, [], ◌∷◌, Option, none, some, arith, inl, inr,
  Bool-cases, leb, leb→le, ne→==,
}
use tklb.Memory.FixedPool.{Store, FixedPool, deallocate, allocate, real_allocation}
use tklb.Memory.FixedPool.Layout.{
  Block, used, gap, bytes, in_use, Tiled, IsValid, SameUsed, Owns, Owns-bounds, Tiled-total,
}
use tklb.Memory.FixedPool.Alloc.{Allocates, allocate-Allocates}
use tklb.Memory.FixedPool.Taken.{real_allocation_bounds}
use tklb.Memory.FixedPool.Free.{deallocate-release}
use tklb.Memory.FixedPool.Spec.{first_fit, fill, keep, release}

-- A block that was taken out of the gaps among the `was` bytes in use, from `i` to `n`.
record Taken (size i n was ptr : ℕ) (bs' : List Block) : Type 0 where
  off : ℕ
  s : ℕ
  place : ptr ≡ off + 8
  fits : size ≤ s
  owns : Owns off s i bs'
  aligned : off % 8 ≡ 0
  from : i ≤ off
  upto : off + s ≤ n
  counted : in_use bs' ≡ was + s

abbrev Fits : ℕ → ℕ → ℕ → ℕ → Option (ℕ × List Block) → Type 0
Fits size i n was none = Unit {0}
Fits size i n was (some (ptr, bs')) = Taken size i n was ptr bs'

fill-Taken :
    (mem : Store) (size i s : ℕ) (bs : List Block) (n : ℕ)
    → Tiled mem i (gap s ∷ bs) n
    → i % 8 ≡ 0
    → size ≤ s
    → Taken size i n (in_use bs) (i + 8) (fill size s bs)
fill-Taken mem size i s bs n t a h =
    let room = Tiled-total mem (i + s) bs n t.2 in
    elim (Bool-cases (leb s (size + 8))) [
      | inl tight ↦ rw tight (record {
        off = i;
        s = s;
        place = refl;
        fits = h;
        owns = inl (refl, refl);
        aligned = a;
        from = omega arith;
        upto = omega arith;
        counted = omega arith;
      })
      | inr loose ↦ rw loose (record {
        off = i;
        s = size;
        place = refl;
        fits = omega arith;
        owns = inl (refl, refl);
        aligned = a;
        from = omega arith;
        upto = omega arith;
        counted = omega arith;
      })
    ]

keep-Fits :
    (b : Block) (size i n was : ℕ) (found : Option (ℕ × List Block))
    → Fits size (i + bytes b) n was found
    → Fits size i n (in_use (b ∷ []) + was) (keep b found)
keep-Fits b size i n was none h = tt
keep-Fits (used u) size i n was (some (ptr, bs')) h = record {
  off = h.off;
  s = h.s;
  place = h.place;
  fits = h.fits;
  owns = inr h.owns;
  aligned = h.aligned;
  from = omega (arith, h.from);
  upto = h.upto;
  counted = omega (arith, h.counted);
}
keep-Fits (gap u) size i n was (some (ptr, bs')) h = record {
  off = h.off;
  s = h.s;
  place = h.place;
  fits = h.fits;
  owns = h.owns;
  aligned = h.aligned;
  from = omega (arith, h.from);
  upto = h.upto;
  counted = omega (arith, h.counted);
}

first_fit-Fits :
    (mem : Store) (size i : ℕ) (bs : List Block) (n : ℕ)
    → Tiled mem i bs n
    → i % 8 ≡ 0
    → Fits size i n (in_use bs) (first_fit size i bs)
first_fit-Fits mem size i [] n t a = tt
first_fit-Fits mem size i (used u ∷ bs) n t a =
    let e : u + 0 + in_use bs ≡ u + in_use bs = omega arith in
    rw e at (
      keep-Fits (used u) size i n (in_use bs) (first_fit size (i + u) bs)
        (first_fit-Fits mem size (i + u) bs n t.2 (omega arith)))
first_fit-Fits mem size i (gap u ∷ bs) n t a =
    let e : 0 + in_use bs ≡ in_use bs = omega arith in
    elim (Bool-cases (leb size u)) [
      | inl fits ↦ rw fits (fill-Taken mem size i u bs n t a (leb→le size u fits))
      | inr tight ↦ rw tight (
          rw e at (
            keep-Fits (gap u) size i n (in_use bs) (first_fit size (i + u) bs)
              (first_fit-Fits mem size (i + u) bs n t.2 (omega arith))))
    ]

-- What the client of a pool may rely on for the pointer `ptr` that it got for `requested` bytes.
pub record Grants (p q : FixedPool) (bs : List Block) (requested ptr : ℕ) : Type 0 where
  pub blocks : List Block
  pub off : ℕ
  pub s : ℕ
  pub valid : IsValid q blocks
  pub place : ptr ≡ off + 8
  pub owns : Owns off s 0 blocks
  pub roomy : requested + 8 ≤ s
  pub inside : off + s ≤ q.pool_size
  pub aligned : ptr % 8 ≡ 0
  pub counted : q.allocated_space ≡ p.allocated_space + s
  pub same : SameUsed p.mem q.mem 0 bs

module _ (p : FixedPool) (bs : List Block) (requested : ℕ) (v : IsValid p bs) (pos : 0 < requested)
    (h : requested ≤ 2 ^ 64 - 16) where
  grants :
      (found : Option (ℕ × List Block)) (ptr : ℕ) (q : FixedPool)
      → Fits (real_allocation requested) 0 p.pool_size (in_use bs) found
      → Allocates p bs found (some (some ptr, q))
      → Grants p q bs requested ptr
  grants none ptr q f a = absurd (cc)
  grants (some (ptr', bs')) ptr q f (q', e, valid, same) =
      let e₀ : ptr ≡ ptr' = cc in
      let e₁ : q ≡ q' = cc in
      let real = real_allocation_bounds requested pos h in
      rw (e₀, e₁)
        (record {
          blocks = bs';
          off = f.off;
          s = f.s;
          valid = valid;
          place = f.place;
          owns = f.owns;
          roomy = omega (arith, real, f.fits);
          inside = (Owns-bounds q'.mem f.off f.s 0 bs' q'.pool_size valid.tiled f.owns).1;
          aligned = omega (arith, f.place, f.aligned);
          counted = omega (arith, valid.counted, f.counted, v.counted);
          same = same;
        })

  -- Every pointer that `allocate` of a well formed pool returns for a request of 1 to 2^64 - 16 bytes, which
  -- does not wrap with its header, is aligned to 8 bytes and points to at least `requested`
  -- bytes inside a block in use of the new, valid pool; the byte count has grown by that block, and
  -- no block that was in use before has been written.
  pub allocate-Grants :
      (ptr : ℕ) (q : FixedPool)
      → allocate p requested ≡ some (some ptr, q)
      → Grants p q bs requested ptr
  allocate-Grants ptr q e =
      grants (first_fit (real_allocation requested) 0 bs) ptr q
        (first_fit-Fits p.mem (real_allocation requested) 0 bs p.pool_size v.tiled (omega arith))
        (rw (ne→== requested 0 (omega arith), e) at (allocate-Allocates p bs requested v h))

  -- What `allocate` gave can be given back: then the byte count is what it was before, and the pool is
  -- valid with that block free.
  pub deallocate-allocate :
      (ptr : ℕ) (q : FixedPool)
      → allocate p requested ≡ some (some ptr, q)
      → let r = deallocate q (some ptr) in
        (r.allocated_space ≡ p.allocated_space) × (bs' : List Block) × IsValid r bs'
  deallocate-allocate ptr q e =
      let g = allocate-Grants ptr q e in
      let d = deallocate-release q g.blocks g.off g.s g.valid g.owns in
      rw g.place (omega (arith, d.1, g.counted), release g.off g.s g.blocks, d.0)
