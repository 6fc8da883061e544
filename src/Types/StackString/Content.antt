-- ===== src/Types/StackString/Content.antt =====
-- What `set` stores, and what the tests say of it.
use tklb.Base.{
  ℕ, zero, suc, ◌+◌, ◌-◌, ◌≤◌, ◌<◌, ◌≡◌, ◌≢◌, refl, ap, sym, ◌∙◌, List, length, get_elem?, set,
  length-set, get_elem?-set_self, get_elem?-set_ne, min, some, ◌==◌, Bool-cases, inl, inr, ==→eq,
  ==→ne, ne→==, ltb, ltb→lt, ltb→le, arith,
}
use tklb.Types.StackString.{copy_from, fill_from, set_c_string}

-- The C string has `n` characters before its terminator, or at least the first `limit` of them.
pub record IsString (str : ℕ → ℕ) (n limit : ℕ) : Type 0 where
  pub characters : (j : ℕ) → j < n → str j ≢ 0
  pub end : n < limit → str n ≡ 0

record Copied (str : ℕ → ℕ) (n i : ℕ) (d : List ℕ) (r : ℕ × List ℕ) : Type 0 where
  place : r.0 ≡ min n (length d)
  same_length : length r.1 ≡ length d
  new : (j : ℕ) → i ≤ j → j < min n (length d) → get_elem? r.1 j ≡ some (str j)
  old : (j : ℕ) → j < i → get_elem? r.1 j ≡ get_elem? d j

copy_from-Copied :
    (str : ℕ → ℕ) (n k i : ℕ) (d : List ℕ)
    → IsString str n (length d)
    → i + k ≡ length d
    → i ≤ n
    → Copied str n i d (copy_from k i str d)
unfolding copy_from
copy_from-Copied str n zero i d s e le = record {
  place = omega arith;
  same_length = refl;
  new = λ j l l'. absurd (omega arith);
  old = λ j l. refl;
}
copy_from-Copied str n (suc k) i d s e le = elim (Bool-cases (str i == 0)) [
  | inl last ↦
      let here : i ≡ n = elim (Bool-cases (ltb i n)) [
        | inl less ↦ absurd (s.characters i (ltb→lt i n less) (==→eq (str i) 0 last))
        | inr more ↦ omega (arith, ltb→le i n more)
      ] in
      rw last (record {
        place = omega arith;
        same_length = refl;
        new = λ j l l'. absurd (omega arith);
        old = λ j l. refl;
      })
  | inr char ↦
      let before : i ≢ n = λ here. ==→ne (str i) 0 char (ap str here ∙ s.end (omega arith)) in
      let same = length-set d i (str i) in
      let w =
        copy_from-Copied str n k (i + 1) (set d i (str i))
          (record { characters = s.characters; end = λ l. s.end (omega (arith, same)) })
          (omega (arith, same)) (omega arith) in
      rw char (record {
        place = omega (arith, w.place, same);
        same_length = w.same_length ∙ same;
        new = λ j l l'. elim (Bool-cases (j == i)) [
          | inl now ↦
              let at_i = ==→eq j i now in
              rw at_i (w.old i (omega arith) ∙ get_elem?-set_self d i (str i) (omega arith))
          | inr later ↦ w.new j (omega (arith, ==→ne j i later)) (omega (arith, same))
        ];
        old = λ j l. w.old j (omega arith) ∙ get_elem?-set_ne d i j (str i) (omega arith);
      })
]

record Filled (k i : ℕ) (d r : List ℕ) : Type 0 where
  same_length : length r ≡ length d
  new : (j : ℕ) → i ≤ j → j < i + k → get_elem? r j ≡ some 0
  old : (j : ℕ) → j < i → get_elem? r j ≡ get_elem? d j

fill_from-Filled : (k i : ℕ) (d : List ℕ) → i + k ≤ length d → Filled k i d (fill_from k i d)
unfolding fill_from
fill_from-Filled zero i d le = record {
  same_length = refl;
  new = λ j l l'. absurd (omega arith);
  old = λ j l. refl;
}
fill_from-Filled (suc k) i d le =
    let same = length-set d i 0 in
    let w = fill_from-Filled k (i + 1) (set d i 0) (omega (arith, same)) in
    record {
      same_length = w.same_length ∙ same;
      new = λ j l l'. elim (Bool-cases (j == i)) [
        | inl now ↦
            let at_i = ==→eq j i now in
            rw at_i (w.old i (omega arith) ∙ get_elem?-set_self d i 0 (omega arith))
        | inr later ↦ w.new j (omega (arith, ==→ne j i later)) (omega arith)
      ];
      old = λ j l. w.old j (omega arith) ∙ get_elem?-set_ne d i j 0 (omega arith);
    }

-- The characters of the C string, as many as leave room for a terminator, and terminators behind.
pub record Stored (str : ℕ → ℕ) (n : ℕ) (d r : List ℕ) : Type 0 where
  pub same_length : length r ≡ length d
  pub characters : (j : ℕ) → j < min n (length d - 1) → get_elem? r j ≡ some (str j)
  pub terminated : (j : ℕ) → min n (length d - 1) ≤ j → j < length d → get_elem? r j ≡ some 0

-- `set` of a C string stores as many of its characters as leave room for a terminator, and nothing but
-- terminators behind them, in every string with at least one character of room.
pub set_c_string-Stored :
    (str : ℕ → ℕ) (n : ℕ) (d : List ℕ)
    → 0 < length d
    → IsString str n (length d)
    → Stored str n d (set_c_string str d)
unfolding set_c_string
set_c_string-Stored str n d room s =
    let r = copy_from (length d) 0 str d in
    let w = copy_from-Copied str n (length d) 0 d s (omega arith) (omega arith) in
    let v = fill_from-Filled (length d - r.0) r.0 r.1 (omega (arith, w.place, w.same_length)) in
    let filled = fill_from (length d - r.0) r.0 r.1 in
    let all : length filled ≡ length d = v.same_length ∙ w.same_length in
    rw (ne→== (length d) 0 (omega arith)) (record {
      same_length = length-set filled (length d - 1) 0 ∙ all;
      characters = λ j l.
          get_elem?-set_ne filled (length d - 1) j 0 (omega arith)
          ∙ v.old j (omega (arith, w.place))
          ∙ w.new j (omega arith) (omega arith);
      terminated = λ j l l'. elim (Bool-cases (j == length d - 1)) [
        | inl last ↦
            let here = ==→eq j (length d - 1) last in
            rw here (get_elem?-set_self filled (length d - 1) 0 (omega (arith, all)))
        | inr inner ↦
            get_elem?-set_ne filled (length d - 1) j 0 (λ e. ==→ne j (length d - 1) inner (sym e))
            ∙ v.new j (omega (arith, w.place, ==→ne j (length d - 1) inner))
                (omega (arith, w.place))
      ];
    })
