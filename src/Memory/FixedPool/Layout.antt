-- ===== src/Memory/FixedPool/Layout.antt =====
-- The shape of a pool's memory: blocks, one after the other, from its start to its end.
use tklb.Base.{ℕ, ◌+◌, ◌%◌, ◌^◌, ◌≤◌, ◌<◌, ◌≡◌, ◌≢◌, List, [], ◌∷◌, ◌⊎◌, inl, inr, arith}
use tklb.Memory.FixedPool.{Store, FixedPool, write, size_of, space_of}

-- A block in use or a free one, with its size in bytes, the header included.
pub data Block : Type 0 where
  used : ℕ → Block
  gap : ℕ → Block

abbrev pub bytes : Block → ℕ
bytes (used s) = s
bytes (gap s) = s

-- The bytes of the blocks in use.
abbrev pub in_use : List Block → ℕ
in_use [] = 0
in_use (used s ∷ bs) = s + in_use bs
in_use (gap s ∷ bs) = in_use bs

abbrev pub total : List Block → ℕ
total [] = 0
total (b ∷ bs) = bytes b + total bs

-- The header of `b` stands at `i`.
abbrev pub Header : Store → ℕ → Block → Type 0
Header mem i (used s) = size_of mem i ≡ s
Header mem i (gap s) = (size_of mem i ≡ 0) × (space_of mem i ≡ s)

-- Blocks hold at least their header and keep every offset a multiple of 8.
abbrev pub Sized : ℕ → Type 0
Sized s = (16 ≤ s) × (s % 8 ≡ 0)

-- The blocks `bs` fill the memory from `i` to `n`.
abbrev pub Tiled : Store → ℕ → List Block → ℕ → Type 0
Tiled mem i [] n = i ≡ n
Tiled mem i (b ∷ bs) n = Header mem i b × Sized (bytes b) × Tiled mem (i + bytes b) bs n

-- The invariant of a pool, with the blocks that it consists of.
pub record IsValid (p : FixedPool) (bs : List Block) : Type 0 where
  -- no object is larger than `PTRDIFF_MAX`
  pub small : p.pool_size < 2 ^ 63
  pub tiled : Tiled p.mem 0 bs p.pool_size
  pub counted : p.allocated_space ≡ in_use bs

pub in_use-le : (bs : List Block) → in_use bs ≤ total bs
in_use-le [] = omega arith
in_use-le (used s ∷ bs) = omega (arith, in_use-le bs)
in_use-le (gap s ∷ bs) = omega (arith, in_use-le bs)

pub Tiled-total :
    (mem : Store) (i : ℕ) (bs : List Block) (n : ℕ) → Tiled mem i bs n → i + total bs ≡ n
Tiled-total mem i [] n t = omega arith
Tiled-total mem i (b ∷ bs) n t = omega (arith, Tiled-total mem (i + bytes b) bs n t.2)

pub Header-agree :
    (mem mem' : Store) (i : ℕ) (b : Block)
    → mem' i ≡ mem i
    → mem' (i + 8) ≡ mem (i + 8)
    → Header mem i b
    → Header mem' i b
Header-agree mem mem' i (used s) e f h = omega arith
Header-agree mem mem' i (gap s) e f h = omega arith

-- Two memories that agree from `i` on hold the same blocks there.
pub Tiled-agree :
    (mem mem' : Store) (i : ℕ) (bs : List Block) (n : ℕ)
    → ((a : ℕ) → i ≤ a → a < n → mem' a ≡ mem a)
    → Tiled mem i bs n
    → Tiled mem' i bs n
Tiled-agree mem mem' i [] n same t = t
Tiled-agree mem mem' i (b ∷ bs) n same t =
    let room : i + bytes b + total bs ≡ n = Tiled-total mem (i + bytes b) bs n t.2 in
    (
      Header-agree mem mem' i b (same i (omega arith) (omega arith))
          (same (i + 8) (omega arith) (omega arith)) t.0,
      t.1,
      Tiled-agree mem mem' (i + bytes b) bs n (λ a lo hi. same a (omega arith) hi) t.2,
    )

pub write_self : (mem : Store) (a v : ℕ) → write mem a v a ≡ v
unfolding write
write_self mem a v = ground arith

pub write_ne : (mem : Store) (a v b : ℕ) → a ≢ b → write mem a v b ≡ mem b
unfolding write
write_ne mem a v b h = ground arith

-- The memory of the blocks in use from `i` on is the same.
abbrev pub SameUsed : Store → Store → ℕ → List Block → Type 0
SameUsed mem mem' i [] = Unit {0}
SameUsed mem mem' i (used s ∷ bs) =
    ((a : ℕ) → i ≤ a → a < i + s → mem' a ≡ mem a) × SameUsed mem mem' (i + s) bs
SameUsed mem mem' i (gap s ∷ bs) = SameUsed mem mem' (i + s) bs

pub SameUsed-from :
    (mem mem' : Store) (i : ℕ) (bs : List Block)
    → ((a : ℕ) → i ≤ a → mem' a ≡ mem a)
    → SameUsed mem mem' i bs
SameUsed-from mem mem' i [] same = tt
SameUsed-from mem mem' i (used s ∷ bs) same =
    (λ a lo hi. same a lo, SameUsed-from mem mem' (i + s) bs (λ a lo. same a (omega arith)))
SameUsed-from mem mem' i (gap s ∷ bs) same =
    SameUsed-from mem mem' (i + s) bs (λ a lo. same a (omega arith))

-- A block in use of `s` bytes stands at `off`, among the blocks from `i` on.
abbrev pub Owns : ℕ → ℕ → ℕ → List Block → Type 0
Owns off s i [] = ⊥
Owns off s i (used t ∷ bs) = ((i ≡ off) × (t ≡ s)) ⊎ Owns off s (i + t) bs
Owns off s i (gap t ∷ bs) = Owns off s (i + t) bs

pub Owns-bounds :
    (mem : Store) (off s i : ℕ) (bs : List Block) (n : ℕ)
    → Tiled mem i bs n
    → Owns off s i bs
    → (i ≤ off) × (off + s ≤ n) × Sized s × (size_of mem off ≡ s)
Owns-bounds mem off s i [] n t o = absurd o
Owns-bounds mem off s i (used u ∷ bs) n t (inl e) =
    let room = Tiled-total mem (i + u) bs n t.2 in
    let same : i ≡ off = e.0 in (omega arith, omega arith, omega arith, rw (← same) (omega arith))
Owns-bounds mem off s i (used u ∷ bs) n t (inr o) =
    let b = Owns-bounds mem off s (i + u) bs n t.2 o in (omega arith, b.1, b.2, b.3)
Owns-bounds mem off s i (gap u ∷ bs) n t o =
    let b = Owns-bounds mem off s (i + u) bs n t.2 o in (omega arith, b.1, b.2, b.3)
