-- ===== src/Memory/FixedPool/Moved.antt =====
-- `memory::copy` between two parts of the pool, and where first fit looks for a larger block.
use tklb.Base.{
  ℕ, zero, suc, ◌+◌, ◌*◌, ◌≤◌, ◌<◌, ◌≡◌, ◌≢◌, refl, ap, ◌∙◌, List, [], ◌∷◌, Option, none, some,
  arith, inl, inr, ◌⊎◌, Bool-cases, leb, leb→le,
}
use tklb.Memory.FixedPool.{Store, write, copy}
use tklb.Memory.FixedPool.Layout.{Block, used, gap, Tiled, Owns, Owns-bounds, write_ne, write_self}
use tklb.Memory.FixedPool.Spec.{first_fit, keep}

-- The copy writes its destination only.
pub copy_outside :
    (mem : Store) (dst src words a : ℕ)
    → (a < dst) ⊎ (dst + 8 * words ≤ a)
    → copy mem dst src words a ≡ mem a
unfolding copy
copy_outside mem dst src zero a h = refl
copy_outside mem dst src (suc words) a (inl h) =
    copy_outside (write mem dst (mem src)) (dst + 8) (src + 8) words a (inl (omega arith))
    ∙ write_ne mem dst (mem src) a (omega arith)
copy_outside mem dst src (suc words) a (inr h) =
    copy_outside (write mem dst (mem src)) (dst + 8) (src + 8) words a (inr (omega arith))
    ∙ write_ne mem dst (mem src) a (omega arith)

-- Each word of the destination is that of the source, where they lie apart.
pub copy_inside :
    (mem : Store) (dst src words k : ℕ)
    → k < words
    → (src + 8 * words ≤ dst) ⊎ (dst + 8 * words ≤ src)
    → copy mem dst src words (dst + 8 * k) ≡ mem (src + 8 * k)
unfolding copy
copy_inside mem dst src zero k lt apart = absurd (omega arith)
copy_inside mem dst src (suc words) zero lt apart =
    let mem' = write mem dst (mem src) in
    copy_outside mem' (dst + 8) (src + 8) words (dst + 8 * zero) (inl (omega arith))
    ∙ ap mem' (no_words dst)
    ∙ write_self mem dst (mem src)
    ∙ ap mem (omega arith)
  where
    no_words : (a : ℕ) → a + 8 * zero ≡ a
    no_words a = omega arith
copy_inside mem dst src (suc words) (suc k) lt apart =
    let mem' = write mem dst (mem src) in
    ap (copy mem' (dst + 8) (src + 8) words) (one_more dst k)
    ∙ copy_inside mem' (dst + 8) (src + 8) words k (omega arith) (next apart)
    ∙ write_ne mem dst (mem src) (src + 8 + 8 * k) (away apart)
    ∙ ap mem (omega arith)
  where
    one_more : (a k : ℕ) → a + 8 * suc k ≡ a + 8 + 8 * k
    one_more a k = omega arith

    next :
        (src + 8 * suc words ≤ dst) ⊎ (dst + 8 * suc words ≤ src)
        → (src + 8 + 8 * words ≤ dst + 8) ⊎ (dst + 8 + 8 * words ≤ src + 8)
    next (inl h) = inl (omega arith)
    next (inr h) = inr (omega arith)

    away : (src + 8 * suc words ≤ dst) ⊎ (dst + 8 * suc words ≤ src) → dst ≢ src + 8 + 8 * k
    away (inl h) = λ e. omega arith
    away (inr h) = λ e. omega arith

-- What first fit finds from the offset `i` on lies behind it.
abbrev Behind : ℕ → Option (ℕ × List Block) → Type 0
Behind i none = Unit {0}
Behind i (some (ptr, bs)) = i + 8 ≤ ptr

keep-Behind :
    (b : Block) (i j : ℕ) (found : Option (ℕ × List Block))
    → j ≤ i
    → Behind i found
    → Behind j (keep b found)
keep-Behind b i j none le h = tt
keep-Behind b i j (some (ptr, bs)) le h = omega arith

first_fit-Behind : (size i : ℕ) (bs : List Block) → Behind i (first_fit size i bs)
first_fit-Behind size i [] = tt
first_fit-Behind size i (used u ∷ bs) =
    keep-Behind (used u) (i + u) i (first_fit size (i + u) bs) (omega arith)
      (first_fit-Behind size (i + u) bs)
first_fit-Behind size i (gap u ∷ bs) = elim (Bool-cases (leb size u)) [
  | inl fits ↦ rw fits (omega arith)
  | inr tight ↦ rw tight (
      keep-Behind (gap u) (i + u) i (first_fit size (i + u) bs) (omega arith)
        (first_fit-Behind size (i + u) bs))
]

-- What first fit finds does not overlap the block of `s` bytes at `off`.
abbrev pub Apart : ℕ → ℕ → ℕ → Option (ℕ × List Block) → Type 0
Apart off s size none = Unit {0}
Apart off s size (some (ptr, bs)) = (ptr + size ≤ off + 8) ⊎ (off + s + 8 ≤ ptr)

keep-Apart :
    (b : Block) (off s size : ℕ) (found : Option (ℕ × List Block))
    → Apart off s size found
    → Apart off s size (keep b found)
keep-Apart b off s size none h = tt
keep-Apart b off s size (some (ptr, bs)) h = h

later-Apart :
    (off s size i : ℕ) (found : Option (ℕ × List Block))
    → off + s ≤ i
    → Behind i found
    → Apart off s size found
later-Apart off s size i none le h = tt
later-Apart off s size i (some (ptr, bs)) le h = inr (omega arith)

pub first_fit-Apart :
    (mem : Store) (off s size i : ℕ) (bs : List Block) (n : ℕ)
    → Tiled mem i bs n
    → Owns off s i bs
    → Apart off s size (first_fit size i bs)
first_fit-Apart mem off s size i [] n t o = absurd o
first_fit-Apart mem off s size i (used u ∷ bs) n t (inl e) =
    keep-Apart (used u) off s size (first_fit size (i + u) bs) (
      later-Apart off s size (i + u) (first_fit size (i + u) bs) (omega (arith, e))
        (first_fit-Behind size (i + u) bs))
first_fit-Apart mem off s size i (used u ∷ bs) n t (inr o) =
    keep-Apart (used u) off s size (first_fit size (i + u) bs)
      (first_fit-Apart mem off s size (i + u) bs n t.2 o)
first_fit-Apart mem off s size i (gap u ∷ bs) n t o = elim (Bool-cases (leb size u)) [
  | inl fits ↦
      let b = Owns-bounds mem off s (i + u) bs n t.2 o in
      let le = leb→le size u fits in rw fits (inl (omega (arith, b.0)))
  | inr tight ↦ rw tight (
      keep-Apart (gap u) off s size (first_fit size (i + u) bs)
        (first_fit-Apart mem off s size (i + u) bs n t.2 o))
]
