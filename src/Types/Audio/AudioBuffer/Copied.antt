-- ===== src/Types/Audio/AudioBuffer/Copied.antt =====
-- The cells after a copy from another buffer: those of the copy, and the others.
use tklb.Base.{
  ℕ, ◌+◌, ◌-◌, ◌*◌, ◌≤◌, ◌<◌, ◌≡◌, refl, ◌∙◌, Bool, true, false, Option, none, some, List, length,
  get_elem?, if◌then◌else◌, arith, get_elem?_of_lt, ◌⊎◌, Run,
}
use tklb.Types.Audio.Samples.{joined}
use tklb.Types.Audio.AudioBuffer.{AudioBuffer, size}
use tklb.Types.Audio.AudioBuffer.Cells.{IsValid, cell, cell-inside}
use tklb.Types.Audio.AudioBuffer.Channels.{Updated, within}

pub within-true : (lo hi i : ℕ) → lo ≤ i → i < hi → within lo hi i ≡ true
within-true lo hi i h k = ground arith

pub within-false : (lo hi i : ℕ) → (i < lo) ⊎ (hi ≤ i) → within lo hi i ≡ false
within-false lo hi i h = ground arith

-- A sample that has been converted.
abbrev pub converted : {A B : Type 0} → (B → A) → Option B → Option A
converted convert none = none
converted convert (some x) = some (convert x)

module _ {A B : Type 0} (convert : B → A) where
  -- Writing over a sample that is there.
  pub joined-some :
      (xs : List A) (i : ℕ) (new : Option B)
      → i < length xs
      → joined (λ y x. convert x) (get_elem? xs i) new ≡ converted convert new
  joined-some xs i new inside = let (y, e) = get_elem?_of_lt xs i inside in rw e (by_new y new)
    where
      by_new :
          (y : A) (new : Option B) → joined (λ y x. convert x) (some y) new ≡ converted convert new
      by_new y none = refl
      by_new y (some x) = refl

  -- What a copy of `n` samples does to the cell `i` of the channel `d`.
  abbrev pub copying : AudioBuffer B → ℕ → ℕ → ℕ → ℕ → ℕ → Option A → Option A
  copying source n offset_src offset_dst d i old =
      if within offset_dst (offset_dst + n) i
      then joined (λ y x. convert x) old (cell source d (offset_src + (i - offset_dst)))
      else old

  module _ (source : AudioBuffer B) (n offset_src offset_dst : ℕ) (b : AudioBuffer A)
      (r : Run (AudioBuffer A))
      (u : Updated (copying source n offset_src offset_dst) b 0 source.channels r) where
    pub cell-copied :
        (c k : ℕ)
        → IsValid b
        → c < b.channels
        → c < source.channels
        → k < n
        → offset_dst + k < size b
        → cell u.buffer c (offset_dst + k) ≡ converted convert (cell source c (offset_src + k))
    cell-copied c k v lt ls lk inside =
        u.cells c (offset_dst + k) lt inside
        ∙ rw
            (
              within-true 0 source.channels c (omega arith) ls,
              within-true offset_dst (offset_dst + n) (offset_dst + k) (omega arith) (omega arith),
              back offset_dst k,
            )
            (joined-some b.samples (c * size b + (offset_dst + k)) (cell source c (offset_src + k))
              (cell-inside b c (offset_dst + k) v lt inside))
      where
        back : (a k : ℕ) → a + k - a ≡ k
        back a k = omega arith

    pub cell-kept :
        (c i : ℕ)
        → c < b.channels
        → i < size b
        → (i < offset_dst) ⊎ (offset_dst + n ≤ i)
        → cell u.buffer c i ≡ cell b c i
    cell-kept c i lt inside out =
        u.cells c i lt inside
        ∙ rw (within-false offset_dst (offset_dst + n) i out) (either (within 0 source.channels c))
      where
        either : (p : Bool) → (if p then cell b c i else cell b c i) ≡ cell b c i
        either true = refl
        either false = refl
