-- ===== src/Memory/FixedPool/Spec.antt =====
-- What a pool promises: first fit over its list of blocks, and a block given back in its place.
use tklb.Base.{ℕ, ◌+◌, ◌-◌, List, [], ◌∷◌, ◌++◌, Option, none, some, leb, ◌==◌, if◌then◌else◌}
use tklb.Memory.FixedPool.Layout.{Block, used, gap, bytes}

abbrev pub keep : Block → Option (ℕ × List Block) → Option (ℕ × List Block)
keep b none = none
keep b (some (ptr, bs)) = some (ptr, b ∷ bs)

-- A gap of `s` bytes gives `size` of them, or all of it where the rest could not hold a header.
abbrev pub fill : ℕ → ℕ → List Block → List Block
fill size s bs = if leb s (size + 8) then used s ∷ bs else used size ∷ gap (s - size) ∷ bs

-- The first gap of at least `size` bytes, among the blocks from the offset `i` on.
abbrev pub first_fit : ℕ → ℕ → List Block → Option (ℕ × List Block)
first_fit size i [] = none
first_fit size i (used s ∷ bs) = keep (used s) (first_fit size (i + s) bs)
first_fit size i (gap s ∷ bs) =
    let later = keep (gap s) (first_fit size (i + s) bs) in
    if leb size s then some (i + 8, fill size s bs) else later

-- The block at `off` makes way for the blocks `cs`.
abbrev pub splice : List Block → ℕ → ℕ → List Block → List Block
splice cs off i [] = []
splice cs off i (b ∷ bs) =
    let rest = b ∷ splice cs off (i + bytes b) bs in if i == off then cs ++ bs else rest

-- The block of `s` bytes at `off` is free.
abbrev pub release : ℕ → ℕ → List Block → List Block
release off s bs = splice (gap s ∷ []) off 0 bs

-- The block of `s` bytes at `off` keeps `n` of them.
abbrev pub trim : ℕ → ℕ → ℕ → List Block → List Block
trim off n s bs = splice (used n ∷ gap (s - n) ∷ []) off 0 bs
