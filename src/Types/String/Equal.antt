-- ===== src/Types/String/Equal.antt =====
-- `set` and `operator==` for C strings.
use tklb.Base.{
  ℕ, zero, suc, ◌+◌, ◌-◌, ◌≤◌, ◌<◌, ◌≡◌, ◌≢◌, refl, ap, sym, ◌∙◌, true, List, [], ◌∷◌, ◌++◌, set,
  arith, eq→==, ne→==,
}
use tklb.Types.String.{
  equal_from, equal, length_from, characters, set_sized, set_string, max_length, terminator,
}

length_from-terminator :
    (n k : ℕ) (str : ℕ → ℕ) (i : ℕ)
    → k < n
    → ((j : ℕ) → i ≤ j → j < i + k → str j ≢ 0)
    → str (i + k) ≡ 0
    → length_from n str i ≡ i + k + 1
unfolding length_from
length_from-terminator zero k str i lt before here = absurd (omega arith)
length_from-terminator (suc n) zero str i lt before here =
    let e : i + 0 ≡ i = omega arith in rw (ap str (sym e) ∙ here) (omega arith)
length_from-terminator (suc n) (suc k) str i lt before here =
    let e : i + suc k ≡ i + 1 + k = omega arith in
    rw (ne→== (str i) 0 (before i (omega arith) (omega arith))) (
      length_from-terminator n k str (i + 1) (omega arith)
        (λ j a b. before j (omega arith) (omega arith)) (ap str (sym e) ∙ here)
      ∙ omega arith)

equal_from-characters :
    (k : ℕ) (str b : ℕ → ℕ) (i : ℕ)
    → ((j : ℕ) → i ≤ j → j < i + k → (str j ≢ 0) × (b j ≡ str j))
    → b (i + k) ≡ 0
    → equal_from (characters k str i ++ terminator ∷ []) b i ≡ true
unfolding equal_from characters
equal_from-characters zero str b i same here =
    let e : i + 0 ≡ i = omega arith in rw (ap b (sym e) ∙ here) refl
equal_from-characters (suc k) str b i same here =
    let (ne, e) = same i (omega arith) (omega arith) in
    let f : i + suc k ≡ i + 1 + k = omega arith in
    rw (e, eq→== (str i) (str i) refl, ne→== (str i) 0 ne)
      (equal_from-characters k str b (i + 1) (λ j a c. same j (omega arith) (omega arith))
        (ap b (sym f) ∙ here))

set-characters :
    (n : ℕ) (str : ℕ → ℕ) (i : ℕ) (c : ℕ)
    → set (characters (suc n) str i) n c ≡ characters n str i ++ c ∷ []
unfolding characters
set-characters zero str i c = refl
set-characters (suc n) str i c = ap (λ t. str i ∷ t) (set-characters n str (i + 1) c)

-- The content that `set` with a length gives.
set_sized_lem :
    (str : ℕ → ℕ) (n : ℕ) (old : List ℕ)
    → set_sized str (n + 1) old ≡ characters n str 0 ++ terminator ∷ []
unfolding set_sized
set_sized_lem str n old =
    rw
      (ne→== (n + 1) 0 (λ e. omega (arith, e)), one_up n, back n, set-characters n str 0 terminator)
  where
    one_up : (n : ℕ) → n + 1 ≡ suc n
    one_up n = omega arith

    back : (n : ℕ) → suc n - 1 ≡ n
    back n = omega arith

equal-set_sized :
    (str : ℕ → ℕ) (n k : ℕ) (old : List ℕ)
    → k < n
    → ((j : ℕ) → j < k → str j ≢ 0)
    → str k ≡ 0
    → equal (set_sized str (length_from n str 0) old) str ≡ true
unfolding equal
equal-set_sized str n k old lt before here =
    let e : 0 + k ≡ k = omega arith in
    let size : length_from n str 0 ≡ k + 1 =
      length_from-terminator n k str 0 lt (λ j a b. before j (omega arith)) (ap str e ∙ here)
      ∙ omega arith in
    rw (size, set_sized_lem str k old)
      (equal_from-characters k str str 0 (λ j a b. (before j (omega arith), refl))
        (ap str e ∙ here))

-- A string that was set to a C string of less than 32 MB is equal to it.
pub equal-set_string :
    (str : ℕ → ℕ) (k : ℕ) (old : List ℕ)
    → k < max_length
    → ((j : ℕ) → j < k → str j ≢ 0)
    → str k ≡ 0
    → equal (set_string str old) str ≡ true
unfolding set_string
equal-set_string str k old lt before here = equal-set_sized str max_length k old lt before here
