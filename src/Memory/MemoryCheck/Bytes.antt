-- ===== src/Memory/MemoryCheck/Bytes.antt =====
-- Reading what was written.
use tklb.Base.{
  ℕ, zero, suc, ◌+◌, ◌*◌, ◌/◌, ◌%◌, ◌^◌, ◌≤◌, ◌<◌, ◌≡◌, ◌≢◌, refl, ap, ap₂, sym, ◌∙◌, ◌⊎◌, inl, inr,
  List, [], ◌∷◌, length, get_or, true, false, ◌==◌, eq→==, ne→==, Bool-cases, arith,
}
use native.Mathlib.Nat.{pow-suc}
use tklb.Memory.MemoryCheck.{MemoryBytes, put_byte, put_bytes, put_word, get_word, compare_bytes}

pub put_byte_self : (p b : ℕ) (mem : MemoryBytes) → put_byte p b mem p ≡ b
unfolding put_byte
put_byte_self p b mem = rw (eq→== p p refl)

pub put_byte-ne : (p b q : ℕ) (mem : MemoryBytes) → q ≢ p → put_byte p b mem q ≡ mem q
unfolding put_byte
put_byte-ne p b q mem ne = rw (ne→== q p ne)

pub put_bytes-elsewhere :
    (bs : List ℕ) (p q : ℕ) (mem : MemoryBytes)
    → (q < p) ⊎ (p + length bs ≤ q)
    → put_bytes bs p mem q ≡ mem q
unfolding put_bytes
put_bytes-elsewhere [] p q mem h = refl
put_bytes-elsewhere (b ∷ bs) p q mem h =
    put_bytes-elsewhere bs (p + 1) q (put_byte p b mem) (away h) ∙ put_byte-ne p b q mem (differs h)
  where
    away : (q < p) ⊎ (p + suc (length bs) ≤ q) → (q < p + 1) ⊎ (p + 1 + length bs ≤ q)
    away (inl l) = inl (omega arith)
    away (inr l) = inr (omega arith)

    differs : (q < p) ⊎ (p + suc (length bs) ≤ q) → q ≢ p
    differs (inl l) e = omega arith
    differs (inr l) e = omega arith

pub put_bytes-inside :
    (bs : List ℕ) (p j : ℕ) (mem : MemoryBytes)
    → j < length bs
    → put_bytes bs p mem (p + j) ≡ get_or bs j 0
unfolding put_bytes
put_bytes-inside [] p j mem lt = absurd (omega arith)
put_bytes-inside (b ∷ bs) p zero mem lt =
    let here : p + 0 ≡ p = omega arith in
    ap (put_bytes bs (p + 1) (put_byte p b mem)) here
    ∙ put_bytes-elsewhere bs (p + 1) p (put_byte p b mem) (inl (omega arith))
    ∙ put_byte_self p b mem
put_bytes-inside (b ∷ bs) p (suc j) mem lt =
    let here : p + suc j ≡ p + 1 + j = omega arith in
    ap (put_bytes bs (p + 1) (put_byte p b mem)) here
    ∙ put_bytes-inside bs (p + 1) j (put_byte p b mem) (omega arith)

pub put_word-elsewhere :
    (k n p q : ℕ) (mem : MemoryBytes) → (q < p) ⊎ (p + k ≤ q) → put_word k n p mem q ≡ mem q
unfolding put_word
put_word-elsewhere zero n p q mem h = refl
put_word-elsewhere (suc k) n p q mem h =
    put_word-elsewhere k (n / 256) (p + 1) q (put_byte p (n % 256) mem) (away h)
    ∙ put_byte-ne p (n % 256) q mem (differs h)
  where
    away : (q < p) ⊎ (p + suc k ≤ q) → (q < p + 1) ⊎ (p + 1 + k ≤ q)
    away (inl l) = inl (omega arith)
    away (inr l) = inr (omega arith)

    differs : (q < p) ⊎ (p + suc k ≤ q) → q ≢ p
    differs (inl l) e = omega arith
    differs (inr l) e = omega arith

-- A number of `k` bytes is read as it was written.
pub get_word-put_word :
    (k n p : ℕ) (mem : MemoryBytes) → n < 256 ^ k → get_word k p (put_word k n p mem) ≡ n
unfolding get_word put_word
get_word-put_word zero n p mem lt = omega arith
get_word-put_word (suc k) n p mem lt =
    let mem' = put_byte p (n % 256) mem in
    let low : put_word k (n / 256) (p + 1) mem' p ≡ n % 256 =
      put_word-elsewhere k (n / 256) (p + 1) p mem' (inl (omega arith))
      ∙ put_byte_self p (n % 256) mem in
    let high : get_word k (p + 1) (put_word k (n / 256) (p + 1) mem') ≡ n / 256 =
      get_word-put_word k (n / 256) (p + 1) mem' (omega (arith, pow_suc k)) in
    rw (low, high) (omega arith)
  where
    pow_suc : (k : ℕ) → 256 ^ suc k ≡ 256 ^ k * 256
    pow_suc k = pow-suc 256 k

pub get_word-same :
    (k p : ℕ) (mem mem' : MemoryBytes)
    → ((j : ℕ) → j < k → mem' (p + j) ≡ mem (p + j))
    → get_word k p mem' ≡ get_word k p mem
unfolding get_word
get_word-same zero p mem mem' same = refl
get_word-same (suc k) p mem mem' same =
    let here : p + 0 ≡ p = omega arith in
    ap₂ (λ a b. a + 256 * b) (ap mem' (sym here) ∙ same 0 (omega arith) ∙ ap mem here)
      (get_word-same k (p + 1) mem mem' (λ j lt.
        let e : p + 1 + j ≡ p + suc j = omega arith in
        ap mem' e ∙ same (suc j) (omega arith) ∙ ap mem (sym e)))

-- The comparison succeeds just where the bytes are there.
pub compare_bytes-true :
    (bs : List ℕ) (p : ℕ) (mem : MemoryBytes)
    → ((j : ℕ) → j < length bs → mem (p + j) ≡ get_or bs j 0)
    → compare_bytes bs p mem ≡ true
unfolding compare_bytes
compare_bytes-true [] p mem same = refl
compare_bytes-true (b ∷ bs) p mem same =
    let here : p + 0 ≡ p = omega arith in
    rw (eq→== (mem p) b (ap mem (sym here) ∙ same 0 (omega arith))) (
      compare_bytes-true bs (p + 1) mem (λ j lt.
        let e : p + 1 + j ≡ p + suc j = omega arith in ap mem e ∙ same (suc j) (omega arith)))

pub compare_bytes-false :
    (bs : List ℕ) (p j : ℕ) (mem : MemoryBytes)
    → j < length bs
    → mem (p + j) ≢ get_or bs j 0
    → compare_bytes bs p mem ≡ false
unfolding compare_bytes
compare_bytes-false [] p j mem lt differs = absurd (omega arith)
compare_bytes-false (b ∷ bs) p zero mem lt differs =
    let here : p + 0 ≡ p = omega arith in rw (ne→== (mem p) b (λ e. differs (ap mem here ∙ e)))
compare_bytes-false (b ∷ bs) p (suc j) mem lt differs = elim (Bool-cases (mem p == b)) [
  | inl same ↦
      let e : p + suc j ≡ p + 1 + j = omega arith in
      rw same (compare_bytes-false bs (p + 1) j mem (omega arith) (λ e'. differs (ap mem e ∙ e')))
  | inr different ↦ rw different
]
