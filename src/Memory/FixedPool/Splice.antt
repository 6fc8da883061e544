-- ===== src/Memory/FixedPool/Splice.antt =====
-- One block in use makes way for others, and the rest of the pool stays as it is.
use tklb.Base.{ℕ, ◌+◌, ◌≤◌, ◌<◌, ◌≡◌, List, [], ◌∷◌, ◌++◌, arith, inl, inr, eq→==, ne→==}
use tklb.Memory.FixedPool.{Store}
use tklb.Memory.FixedPool.Layout.{
  Block, used, gap, bytes, in_use, Tiled, SameUsed, SameUsed-from, Owns, Owns-bounds, Tiled-agree,
  Header-agree,
}
use tklb.Memory.FixedPool.Spec.{splice}

Tiled-append :
    (mem : Store) (i : ℕ) (cs : List Block) (m : ℕ) (bs : List Block) (n : ℕ)
    → Tiled mem i cs m
    → Tiled mem m bs n
    → Tiled mem i (cs ++ bs) n
Tiled-append mem i [] m bs n t u = let e : i ≡ m = t in rw e u
Tiled-append mem i (c ∷ cs) m bs n t u = (t.0, t.1, Tiled-append mem (i + bytes c) cs m bs n t.2 u)

in_use-append : (cs bs : List Block) → in_use (cs ++ bs) ≡ in_use cs + in_use bs
in_use-append [] bs = omega arith
in_use-append (used s ∷ cs) bs = omega (arith, in_use-append cs bs)
in_use-append (gap s ∷ cs) bs = omega (arith, in_use-append cs bs)

-- `mem'` is `mem` outside the `s` bytes at `off`, and holds the blocks `cs` there.
pub record Edits (mem mem' : Store) (off s : ℕ) (cs : List Block) : Type 0 where
  pub below : (a : ℕ) → a < off → mem' a ≡ mem a
  pub above : (a : ℕ) → off + s ≤ a → mem' a ≡ mem a
  pub inside : Tiled mem' off cs (off + s)

pub record Spliced (mem mem' : Store) (off s : ℕ) (cs : List Block) (i : ℕ) (bs : List Block)
    (n : ℕ) : Type 0 where
  pub tiled : Tiled mem' i (splice cs off i bs) n
  pub same : SameUsed mem mem' i (splice (gap s ∷ []) off i bs)
  pub counted : in_use (splice cs off i bs) + s ≡ in_use bs + in_use cs

module _ (mem mem' : Store) (off s : ℕ) (cs : List Block) (n : ℕ)
    (f : Edits mem mem' off s cs) where
  here :
      (i : ℕ) (bs : List Block)
      → i ≡ off
      → Tiled mem i (used s ∷ bs) n
      → Spliced mem mem' off s cs i (used s ∷ bs) n
  here i bs e t = record {
    tiled = rw (eq→== i off e) (Tiled-append mem' i cs (i + s) bs n (rw e f.inside) rest);
    same = rw (eq→== i off e) (SameUsed-from mem mem' (i + s) bs (λ a h. f.above a (omega arith)));
    counted = rw (eq→== i off e) (omega (arith, in_use-append cs bs));
  }
    where
      rest : Tiled mem' (i + s) bs n
      rest = Tiled-agree mem mem' (i + s) bs n (λ a h _. f.above a (omega arith)) t.2

  later :
      (i : ℕ) (b : Block) (bs : List Block)
      → i + bytes b ≤ off
      → Tiled mem i (b ∷ bs) n
      → Spliced mem mem' off s cs (i + bytes b) bs n
      → Spliced mem mem' off s cs i (b ∷ bs) n
  later i (used u) bs lt t r = record {
    tiled = rw (ne→== i off (omega arith)) (rw (f.below i (omega arith)) t.0, t.1, r.tiled);
    same = rw (ne→== i off (omega arith)) (λ a lo hi. f.below a (omega arith), r.same);
    counted = rw (ne→== i off (omega arith)) (omega (arith, r.counted));
  }
  later i (gap u) bs lt t r = record {
    tiled = rw (ne→== i off (omega arith)) (
      Header-agree mem mem' i (gap u) (f.below i (omega arith)) (f.below (i + 8) (omega arith)) t.0,
      t.1,
      r.tiled,
    );
    same = rw (ne→== i off (omega arith)) r.same;
    counted = rw (ne→== i off (omega arith)) (omega (arith, r.counted));
  }

  pub Spliced-of_Owns :
      (i : ℕ) (bs : List Block)
      → Tiled mem i bs n
      → Owns off s i bs
      → Spliced mem mem' off s cs i bs n
  Spliced-of_Owns i [] t o = absurd o
  Spliced-of_Owns i (used u ∷ bs) t (inl (e, e')) = rw e' (here i bs e (rw e' at t))
  Spliced-of_Owns i (used u ∷ bs) t (inr o) =
      later i (used u) bs (Owns-bounds mem off s (i + u) bs n t.2 o).0 t
        (Spliced-of_Owns (i + u) bs t.2 o)
  Spliced-of_Owns i (gap u ∷ bs) t o =
      later i (gap u) bs (Owns-bounds mem off s (i + u) bs n t.2 o).0 t
        (Spliced-of_Owns (i + u) bs t.2 o)
