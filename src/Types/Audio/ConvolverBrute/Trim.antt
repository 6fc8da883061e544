-- ===== src/Types/Audio/ConvolverBrute/Trim.antt =====
-- The trimming of silence in `load`.
use tklb.Base.{
  ℕ, zero, suc, ◌+◌, ◌-◌, ◌*◌, ◌≤◌, ◌<◌, ◌≡◌, refl, ap, sym, ◌∙◌, ◌⊎◌, inl, inr, Bool, true, false,
  some, get_elem?_of_lt, Bool-cases, ◌==◌, ==→eq, ==→ne, Run, ok, arith,
}
use mathlib.Core.Option.{some-injective}
use tklb.Types.Audio.AudioBuffer.{AudioBuffer, size}
use tklb.Types.Audio.AudioBuffer.Cells.{IsValid, cell, cell-inside, start_lem}
use tklb.Types.Audio.ConvolverBrute.{loud_from, trim}

module _ {A : Type 0} (loud : A → Bool) where
  -- What `loud_from` says of the channels from `c` on.
  data Heard (k c i : ℕ) (ir : AudioBuffer A) (r : Run Bool) : Type 0 where
    yes :
        r ≡ ok true
        → (d : ℕ) (x : A) → d < c + k
        → cell ir d i ≡ some x
        → loud x ≡ true
        → Heard k c i ir r
    no :
        r ≡ ok false
        → ((d : ℕ) (x : A) → c ≤ d → d < c + k → cell ir d i ≡ some x → loud x ≡ false)
        → Heard k c i ir r

  heard :
      (k c i : ℕ) (ir : AudioBuffer A)
      → IsValid ir
      → c + k ≤ ir.channels
      → i < size ir
      → Heard k c i ir (loud_from loud k c i ir)
  unfolding loud_from
  heard zero c i ir v le lt = no refl (λ d x l l' e. absurd (omega arith))
  heard (suc k) c i ir v le lt =
      let (x, e) =
        get_elem?_of_lt ir.samples (c * size ir + i) (cell-inside ir c i v (omega arith) lt) in
      rw (start_lem ir c v (omega arith), e)
        (elim (Bool-cases (loud x)) [
          | inl is_loud ↦ rw is_loud (yes refl c x (omega arith) e is_loud)
          | inr quiet ↦ rw quiet (later x e quiet (heard k (c + 1) i ir v (omega arith) lt))
        ])
    where
      later :
          (x : A)
          → cell ir c i ≡ some x
          → loud x ≡ false
          → Heard k (c + 1) i ir (loud_from loud k (c + 1) i ir)
          → Heard (suc k) c i ir (loud_from loud k (c + 1) i ir)
      later x e quiet (yes run d y l e' is_loud) = yes run d y (omega arith) e' is_loud
      later x e quiet (no run all) = no run (λ d y l l' e'. elim (Bool-cases (d == c)) [
        | inl here ↦
            let same : d ≡ c = ==→eq d c here in
            let eq : x ≡ y = some-injective x y (sym e ∙ ap (λ n. cell ir n i) (sym same) ∙ e') in
            ap loud (sym eq) ∙ quiet
        | inr there ↦ all d y (omega (arith, ==→ne d c there)) (omega arith) e'
      ])

  -- A length behind which all is silent, and which is the whole, or ends with a loud frame.
  pub record Trimmed (ir : AudioBuffer A) (r : Run ℕ) : Type 0 where
    pub len : ℕ
    pub run : r ≡ ok len
    pub inside : len ≤ size ir
    pub silent_behind :
        (c j : ℕ) (x : A)
        → c < ir.channels
        → len ≤ j
        → j < size ir
        → cell ir c j ≡ some x
        → loud x ≡ false
    pub tight :
        (len ≡ size ir)
        ⊎ ((c : ℕ) × (x : A) × (c < ir.channels) × (cell ir c (len - 1) ≡ some x) × (loud x ≡ true))

  trim_from :
      (i : ℕ) (ir : AudioBuffer A)
      → IsValid ir
      → i < size ir
      → ((c j : ℕ) (x : A)
          → c < ir.channels
          → i < j
          → j < size ir
          → cell ir c j ≡ some x
          → loud x ≡ false)
      → Trimmed ir (trim loud i ir)
  unfolding trim
  trim_from zero ir v lt silent = record {
    len = size ir;
    run = refl;
    inside = omega arith;
    silent_behind = λ c j x l le l' e. absurd (omega arith);
    tight = inl refl;
  }
  trim_from (suc i) ir v lt silent =
      by_heard (heard ir.channels 0 (suc i) ir v (omega arith) lt)
        (λ quiet. trim_from i ir v (omega arith) quiet)
    where
      Silent : ℕ → Type 0
      Silent n =
          (c j : ℕ) (x : A)
          → c < ir.channels
          → n < j
          → j < size ir
          → cell ir c j ≡ some x
          → loud x ≡ false

      by_heard :
          Heard ir.channels 0 (suc i) ir (loud_from loud ir.channels 0 (suc i) ir)
          → (Silent i → Trimmed ir (trim loud i ir))
          → Trimmed ir (trim loud (suc i) ir)
      by_heard (yes run d x l e is_loud) rest =
          let place : suc i + 1 - 1 ≡ suc i = omega arith in
          rw run (record {
            len = suc i + 1;
            run = refl;
            inside = omega arith;
            silent_behind = λ c j y l' le l'' e'. silent c j y l' (omega arith) l'' e';
            tight = inr (d, x, omega arith, ap (cell ir d) place ∙ e, is_loud);
          })
      by_heard (no run all) rest = rw run (
          rest (λ c j y l' less l'' e'. elim (Bool-cases (j == suc i)) [
            | inl here ↦
                all c y (omega arith) (omega arith)
                  (ap (cell ir c) (sym (==→eq j (suc i) here)) ∙ e')
            | inr there ↦ silent c j y l' (omega (arith, ==→ne j (suc i) there)) l'' e'
          ]))

  -- Behind the length that `load` keeps of a well formed response everything is silent, and the length
  -- is the whole or its last frame is loud.
  pub trim-Trimmed :
      (ir : AudioBuffer A) → IsValid ir → 0 < size ir → Trimmed ir (trim loud (size ir - 1) ir)
  trim-Trimmed ir v room =
      trim_from (size ir - 1) ir v (omega arith) (λ c j x l less l' e. absurd (omega arith))
