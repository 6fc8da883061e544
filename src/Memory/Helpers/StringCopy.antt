-- ===== src/Memory/Helpers/StringCopy.antt =====
-- What `stringCopy` leaves in its target.
use tklb.Base.{
  ℕ, zero, suc, ◌+◌, ◌-◌, ◌≤◌, ◌<◌, ◌^◌, ◌≡◌, ◌≢◌, refl, ap, sym, ◌∙◌, Bool, true, false, ◌==◌,
  eq→==, ne→==, ==→eq, ==→ne, Bool-cases, inl, inr, arith, sub64,
}
use tklb.Memory.Helpers.{put_element, short_length, copy_chars, string_copy}

put_element_self : {A : Type 0} (i : ℕ) (x : A) (dst : ℕ → A) → put_element i x dst i ≡ x
unfolding put_element
put_element_self i x dst = rw (eq→== i i refl)

put_element-ne :
    {A : Type 0} (i j : ℕ) (x : A) (dst : ℕ → A) → j ≢ i → put_element i x dst j ≡ dst j
unfolding put_element
put_element-ne i j x dst ne = rw (ne→== j i ne)

-- A copy of `k` characters from `i` on that meets no terminator.
record Unmet (k i : ℕ) (src dst : ℕ → ℕ) (r : Bool × (ℕ → ℕ)) : Type 0 where
  met : r.0 ≡ false
  new : (j : ℕ) → i ≤ j → j < i + k → r.1 j ≡ src j
  before : (j : ℕ) → j < i → r.1 j ≡ dst j
  behind : (j : ℕ) → i + k ≤ j → r.1 j ≡ dst j

copy_chars-Unmet :
    (k i : ℕ) (src dst : ℕ → ℕ)
    → ((j : ℕ) → i ≤ j → j < i + k → src j ≢ 0)
    → Unmet k i src dst (copy_chars k i src dst)
unfolding copy_chars
copy_chars-Unmet zero i src dst chars = record {
  met = refl;
  new = λ j l l'. absurd (omega arith);
  before = λ j l. refl;
  behind = λ j l. refl;
}
copy_chars-Unmet (suc k) i src dst chars =
    let w =
      copy_chars-Unmet k (i + 1) src (put_element i (src i) dst)
        (λ j l l'. chars j (omega arith) (omega arith)) in
    rw (ne→== (src i) 0 (chars i (omega arith) (omega arith))) (record {
      met = w.met;
      new = λ j l l'. elim (Bool-cases (j == i)) [
        | inl now ↦
            let here = ==→eq j i now in
            rw here (w.before i (omega arith) ∙ put_element_self i (src i) dst)
        | inr later ↦ w.new j (omega (arith, ==→ne j i later)) (omega arith)
      ];
      before = λ j l. w.before j (omega arith) ∙ put_element-ne i j (src i) dst (omega arith);
      behind = λ j l. w.behind j (omega arith) ∙ put_element-ne i j (src i) dst (omega arith);
    })

-- A copy that meets the terminator leaves one.
copy_chars-met :
    (k i : ℕ) (src dst : ℕ → ℕ)
    → (copy_chars k i src dst).0 ≡ true
    → (j : ℕ) × (j < i + k) × ((copy_chars k i src dst).1 j ≡ 0)
unfolding copy_chars
copy_chars-met zero i src dst = λ met. absurd (cc)
copy_chars-met (suc k) i src dst = elim (Bool-cases (src i == 0)) [
  | inl last ↦
      rw last (λ met. (i, omega arith, put_element_self i (src i) dst ∙ ==→eq (src i) 0 last))
  | inr char ↦ rw char (λ met.
      let (j, l, e) = copy_chars-met k (i + 1) src (put_element i (src i) dst) met in
      (j, omega arith, e))
]

short_length-terminator :
    (n k i size : ℕ) (src : ℕ → ℕ)
    → ((j : ℕ) → i ≤ j → j < i + n → src j ≢ 0)
    → src (i + n) ≡ 0
    → n < k
    → short_length k i src size ≡ (i + n, false)
unfolding short_length
short_length-terminator n zero i size src chars end lt = absurd (omega arith)
short_length-terminator zero (suc k) i size src chars end lt =
    let here : i + 0 ≡ i = omega arith in rw (ap src (sym here) ∙ end, here)
short_length-terminator (suc n) (suc k) i size src chars end lt =
    let next : i + suc n ≡ i + 1 + n = omega arith in
    rw (ne→== (src i) 0 (chars i (omega arith) (omega arith)), next)
      (short_length-terminator n k (i + 1) i src (λ j l l'. chars j (omega arith) (omega arith))
        (ap src (sym next) ∙ end) (omega arith))

-- Without a size a C string of less than 64 characters is copied without its terminator: no other byte of
-- the target is written.
pub string_copy-unterminated :
    (n : ℕ) (terminate : Bool) (src dst : ℕ → ℕ)
    → n < 64
    → ((j : ℕ) → j < n → src j ≢ 0)
    → src n ≡ 0
    → ((j : ℕ) → j < n → string_copy 0 terminate src dst j ≡ src j)
      × ((j : ℕ) → n ≤ j → string_copy 0 terminate src dst j ≡ dst j)
unfolding string_copy
string_copy-unterminated n terminate src dst lt chars end =
    let zero_plus : 0 + n ≡ n = omega arith in
    let len : short_length 64 0 src 0 ≡ (n, false) =
      short_length-terminator n 64 0 0 src (λ j l l'. chars j (omega arith))
        (ap src zero_plus ∙ end) lt
      ∙ ap (λ m. (m, false)) zero_plus in
    let w = copy_chars-Unmet n 0 src dst (λ j l l'. chars j (omega arith)) in
    (
      λ j l. rw (len, w.met) (w.new j (omega arith) (omega arith)),
      λ j l. rw (len, w.met) (w.behind j (omega arith)),
    )

-- With a size and `terminate` the target has a terminator within that size, whatever the source holds.
pub string_copy-terminated :
    (size : ℕ) (src dst : ℕ → ℕ)
    → 0 < size
    → size < 2 ^ 64
    → (j : ℕ) × (j < size) × (string_copy size true src dst j ≡ 0)
unfolding string_copy
string_copy-terminated size src dst pos small = elim (Bool-cases ((copy_chars size 0 src dst).0)) [
  | inl met ↦
      let (j, l, e) = copy_chars-met size 0 src dst met in
      (j, omega arith, rw (ne→== size 0 (omega arith), met) e)
  | inr unmet ↦ (
    size - 1,
    omega arith,
    rw (ne→== size 0 (omega arith), unmet, last size pos small)
        (put_element_self (size - 1) 0 ((copy_chars size 0 src dst).1)),
  )
]
  where
    last : (size : ℕ) → 0 < size → size < 2 ^ 64 → sub64 size 1 ≡ size - 1
    last size pos small = omega arith
