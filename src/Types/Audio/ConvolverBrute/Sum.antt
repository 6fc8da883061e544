-- ===== src/Types/Audio/ConvolverBrute/Sum.antt =====
-- The sum that a convolution computes, and the loop over its terms that are not zero.
use tklb.Base.{
  ℕ, zero, suc, ◌+◌, ◌-◌, ◌≤◌, ◌<◌, ◌^◌, ◌≡◌, refl, ap, sym, ◌∙◌, List, [], ◌∷◌, get_elem?, set,
  set-set, get_elem?-set_self, get_elem?-lt, some, ok, ◌>>=◌, arith, sub32, sub32_lem,
}
use tklb.Types.Audio.ConvolverBrute.{taps}

module _ {A : Type 0} where
  pub set_same : (xs : List A) (i : ℕ) (v : A) → get_elem? xs i ≡ some v → set xs i v ≡ xs
  set_same [] i v h = refl
  set_same (x ∷ xs) zero v h = ap (λ y. y ∷ xs) (grind arith)
  set_same (x ∷ xs) (suc i) v h = ap (λ ys. x ∷ ys) (set_same xs i v h)

module _ {A : Type 0} (plus times : A → A → A) where
  -- `y` and the products of the response `h` at `j`, `j + 1`, … with the input `x` at `i - j`, ….
  abbrev pub convolved : (ℕ → A) → (ℕ → A) → ℕ → ℕ → ℕ → A → A
  convolved h x i zero j y = y
  convolved h x i (suc k) j y = convolved h x i k (j + 1) (plus y (times (h j) (x (i - j))))

  pub convolved-add :
      (h x : ℕ → A) (i k l j : ℕ) (y : A)
      → convolved h x i (k + l) j y ≡ convolved h x i l (j + k) (convolved h x i k j y)
  convolved-add h x i zero l j y =
      let e : 0 + l ≡ l = omega arith in let e' : j + 0 ≡ j = omega arith in rw (e, e')
  convolved-add h x i (suc k) l j y =
      let e : suc k + l ≡ suc (k + l) = omega arith in
      let e' : j + suc k ≡ j + 1 + k = omega arith in
      rw (e, e') (convolved-add h x i k l (j + 1) (plus y (times (h j) (x (i - j)))))

  -- Terms that are zero add nothing.
  pub convolved-zero :
      (nothing : A)
      → ((y : A) → plus y nothing ≡ y)
      → (h x : ℕ → A) (i k j : ℕ) (y : A)
      → ((m : ℕ) → j ≤ m → m < j + k → times (h m) (x (i - m)) ≡ nothing)
      → convolved h x i k j y ≡ y
  convolved-zero nothing plus_zero h x i zero j y none = refl
  convolved-zero nothing plus_zero h x i (suc k) j y none =
      convolved-zero nothing plus_zero h x i k (j + 1) (plus y (times (h j) (x (i - j))))
        (λ m le lt. none m (omega arith) (omega arith))
      ∙ ap (plus y) (none j (omega arith) (omega arith))
      ∙ plus_zero y

  taps_round :
      (k j i : ℕ) (ir : List A) (h : ℕ) (sound : List A) (x d : ℕ) (out : List A) (a b y : A)
      (m : ℕ)
      → get_elem? ir (h + j) ≡ some a
      → sub32 i j ≡ m
      → get_elem? sound (x + m) ≡ some b
      → get_elem? out d ≡ some y
      → taps plus times (suc k) j i ir h sound x d out
        ≡ taps plus times k (j + 1) i ir h sound x d (set out d (plus y (times a b)))
  unfolding taps
  taps_round k j i ir h sound x d out a b y m e₁ e₂ e₃ e₄ = rw (e₁, ◌>>=◌, e₂, e₃, ◌>>=◌, e₄)

  -- The loop over `j` adds those terms to one sample.
  pub taps-convolved :
      (k j i : ℕ) (ir : List A) (h : ℕ) (sound : List A) (x d : ℕ) (out : List A) (y : A)
      (f g : ℕ → A)
      → i < 2 ^ 32
      → j + k ≤ suc i
      → get_elem? out d ≡ some y
      → ((m : ℕ) → j ≤ m → m < j + k → get_elem? ir (h + m) ≡ some (f m))
      → ((m : ℕ) → j ≤ m → m < j + k → get_elem? sound (x + (i - m)) ≡ some (g (i - m)))
      → taps plus times k j i ir h sound x d out ≡ ok (set out d (convolved f g i k j y))
  unfolding taps
  taps-convolved zero j i ir h sound x d out y f g small le here in_ir in_sound =
      ap ok (sym (set_same out d y here))
  taps-convolved (suc k) j i ir h sound x d out y f g small le here in_ir in_sound =
      let y' = plus y (times (f j) (g (i - j))) in
      taps_round k j i ir h sound x d out (f j) (g (i - j)) y (i - j)
        (in_ir j (omega arith) (omega arith)) (sub32_lem i j (omega arith) small)
        (in_sound j (omega arith) (omega arith)) here
      ∙ taps-convolved k (j + 1) i ir h sound x d (set out d y') y' f g small (omega arith)
          (get_elem?-set_self out d y' (get_elem?-lt out d y here))
          (λ m le' lt. in_ir m (omega arith) (omega arith))
          (λ m le' lt. in_sound m (omega arith) (omega arith))
      ∙ ap ok (set-set out d y' (convolved f g i k (j + 1) y'))
