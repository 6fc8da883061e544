-- ===== src/Types/Audio/AudioBuffer/Cells.antt =====
-- Where a channel's samples lie, and what a well formed buffer is.
use tklb.Base.{
  ℕ, suc, ◌+◌, ◌*◌, ◌/◌, ◌^◌, ◌≤◌, ◌<◌, ◌≡◌, ◌≢◌, refl, ap, sym, ◌∙◌, min, Option, length,
  get_elem?, arith, mul32, Bool-cases, inl, inr, ltb, ltb→lt, ltb→le, ◌⊎◌,
}
use native.Mathlib.Nat.{suc-mul, mul-le-mul_right, mod-eq_of_lt, mul-div_cancel_left}
use tklb.Types.Audio.AudioBuffer.{AudioBuffer, size, start, set_valid_size}

-- The samples are `channels` times `length`, the valid part is not longer, and the sizes fit 32 bits.
pub record IsValid {A : Type 0} (b : AudioBuffer A) : Type 0 where
  pub total : length b.samples ≡ b.channels * size b
  pub fits : length b.samples < 2 ^ 32
  pub valid : b.valid_size ≤ size b

module _ {A : Type 0} where
  -- The sample `i` of a channel.
  abbrev pub cell : AudioBuffer A → ℕ → ℕ → Option A
  cell b c i = get_elem? b.samples (c * size b + i)

  -- In a buffer of the shape of `b`, with the samples of one channel after the other.
  pub cell-inside :
      (b : AudioBuffer A) (c i : ℕ)
      → IsValid b
      → c < b.channels
      → i < size b
      → c * size b + i < length b.samples
  cell-inside b c i v lt inside =
      omega (arith, v.total, suc-mul c (size b), mul-le-mul_right (size b) (lt_suc c b.channels lt))
    where
      lt_suc : (c k : ℕ) → c < k → suc c ≤ k
      lt_suc c k h = omega arith

  pub start_lem : (b : AudioBuffer A) (c : ℕ) → IsValid b → c < b.channels → start b c ≡ c * size b
  unfolding start
  start_lem b c v lt =
      let quotient : length b.samples / b.channels ≡ size b =
        ap (λ n. n / b.channels) v.total ∙ mul-div_cancel_left (size b) (omega arith) in
      let below : c * size b < 2 ^ 32 =
        omega (arith, mul-le-mul_right (size b) (weaken c b.channels lt), v.total, v.fits) in
      ap (mul32 c) quotient ∙ mod-eq_of_lt below
    where
      weaken : (c k : ℕ) → c < k → c ≤ k
      weaken c k h = omega arith

ordered : (n c i d j : ℕ) → i < n → c < d → c * n + i < d * n + j
ordered n c i d j lt less = omega (arith, suc-mul c n, mul-le-mul_right n (lt_suc c d less))
  where
    lt_suc : (c d : ℕ) → c < d → suc c ≤ d
    lt_suc c d h = omega arith

-- The samples of a channel lie inside the buffer.
pub channel_room :
    {A : Type 0} (b : AudioBuffer A) (c : ℕ)
    → IsValid b
    → c < b.channels
    → c * size b + size b ≤ length b.samples
channel_room b c v lt =
    omega (arith, v.total, suc-mul c (size b), mul-le-mul_right (size b) (lt_suc c b.channels lt))
  where
    lt_suc : (c k : ℕ) → c < k → suc c ≤ k
    lt_suc c k h = omega arith

-- Cells of different channels or at different indices are different.
pub cells-ne : (n c i d j : ℕ) → i < n → j < n → (c ≢ d) ⊎ (i ≢ j) → c * n + i ≢ d * n + j
cells-ne n c i d j lt lt' h e = elim (Bool-cases (ltb c d)) [
  | inl less ↦ omega (arith, ordered n c i d j lt (ltb→lt c d less))
  | inr more ↦ elim (Bool-cases (ltb d c)) [
    | inl less ↦ omega (arith, ordered n d j c i lt' (ltb→lt d c less))
    | inr more' ↦
        let same : c ≡ d = omega (arith, ltb→le c d more, ltb→le d c more') in
        let rows : c * n ≡ d * n = ap (λ k. k * n) same in
        elim h [ inl ne ↦ ne same | inr ne ↦ ne (omega arith) ]
  ]
]

-- Setting the valid size keeps all else.
pub set_valid_size_lem :
    {A : Type 0} (v : ℕ) (b : AudioBuffer A)
    → v ≤ size b
    → set_valid_size v b ≡ record b { valid_size = v }
unfolding set_valid_size
set_valid_size_lem v b le = let e : min (size b) v ≡ v = omega arith in rw e

pub size-valid_size :
    {A : Type 0} (v : ℕ) (b : AudioBuffer A) → size (record b { valid_size = v }) ≡ size b
unfolding size
size-valid_size v b = refl

-- A valid size that fits makes a well formed buffer.
pub with_valid_size :
    {A : Type 0} (b : AudioBuffer A) (v : ℕ)
    → IsValid b
    → v ≤ size b
    → IsValid (record b { valid_size = v })
with_valid_size b v valid room = record {
  total = valid.total ∙ ap (λ m. b.channels * m) (sym (size-valid_size v b));
  fits = valid.fits;
  valid = omega (arith, size-valid_size v b);
}
