-- ===== src/Types/StackString/Equal.antt =====
-- `size` and `operator==` after `set`, and `put`.
use tklb.Base.{
  ℕ, zero, suc, ◌+◌, ◌-◌, ◌<◌, ◌≡◌, ◌≢◌, refl, ap, sym, ◌∙◌, List, [], ◌∷◌, length, get_elem?, min,
  Option, none, some, ◌==◌, leb, if◌then◌else◌, Bool-cases, inl, inr, ==→eq, eq→==, ne→==, leb→le,
  leb→lt, arith,
}
use mathlib.Core.Option.{some-injective}
use tklb.Types.StackString.{set_c_string, is_empty, string_size, equal_c_from, equal_c_string}
use tklb.Types.StackString.Content.{IsString, set_c_string-Stored}

none-ne-some : (x : ℕ) → ◌≢◌ {A = Option ℕ} none (some x)
none-ne-some x e = absurd (cc)

-- `k` characters of the C string from `i` on, and a terminator.
record Begins (str : ℕ → ℕ) (i k : ℕ) (ds : List ℕ) : Type 0 where
  characters : (j : ℕ) → j < k → (get_elem? ds j ≡ some (str (i + j))) × (str (i + j) ≢ 0)
  end : get_elem? ds k ≡ some 0

Begins-suc :
    {str : ℕ → ℕ} {i k : ℕ} {c : ℕ} {ds : List ℕ}
    → Begins str i (suc k) (c ∷ ds)
    → Begins str (i + 1) k ds
Begins-suc {str} {i} s = record {
  characters = λ j lt.
      let (e, ne) = s.characters (suc j) (omega arith) in
      let place : i + suc j ≡ i + 1 + j = omega arith in
      (e ∙ ap (λ m. some (str m)) place, λ none'. ne (ap str place ∙ none'));
  end = s.end;
}

Begins-char :
    {str : ℕ → ℕ} {i k : ℕ} {c : ℕ} {ds : List ℕ}
    → Begins str i (suc k) (c ∷ ds)
    → (c ≡ str i) × (str i ≢ 0)
Begins-char {str} {i} {c} s =
    let (e, ne) = s.characters 0 (omega arith) in
    let place : i + 0 ≡ i = omega arith in
    (
      some-injective c (str i) (e ∙ ap (λ m. some (str m)) place),
      λ none'. ne (ap str place ∙ none'),
    )

string_size-Begins : (str : ℕ → ℕ) (i k : ℕ) (ds : List ℕ) → Begins str i k ds → string_size ds ≡ k
unfolding string_size
string_size-Begins str i k [] s = absurd (none-ne-some 0 s.end)
string_size-Begins str i zero (c ∷ ds) s = let e : c ≡ 0 = some-injective c 0 s.end in rw e
string_size-Begins str i (suc k) (c ∷ ds) s =
    let (e, ne) = Begins-char s in
    rw (e, ne→== (str i) 0 ne) (ap suc (string_size-Begins str (i + 1) k ds (Begins-suc s)))

equal_c_from-Begins :
    (str : ℕ → ℕ) (i k : ℕ) (ds : List ℕ)
    → Begins str i k ds
    → equal_c_from ds str i ≡ (str (i + k) == 0)
unfolding equal_c_from
equal_c_from-Begins str i k [] s = absurd (none-ne-some 0 s.end)
equal_c_from-Begins str i zero (c ∷ ds) s =
    let e : c ≡ 0 = some-injective c 0 s.end in
    let place : i + 0 ≡ i = omega arith in
    rw (e, place) (elim (Bool-cases (str i == 0)) [ inl last ↦ rw last | inr more ↦ rw more ])
equal_c_from-Begins str i (suc k) (c ∷ ds) s =
    let (e, ne) = Begins-char s in
    let place : i + suc k ≡ i + 1 + k = omega arith in
    rw (e, ne→== (str i) 0 ne, eq→== (str i) (str i) refl, place)
      (equal_c_from-Begins str (i + 1) k ds (Begins-suc s))

empty_first : (str : ℕ → ℕ) (k : ℕ) (ds : List ℕ) → Begins str 0 k ds → is_empty ds ≡ (k == 0)
unfolding is_empty
empty_first str k [] s = absurd (none-ne-some 0 s.end)
empty_first str zero (c ∷ ds) s = let e : c ≡ 0 = some-injective c 0 s.end in rw e
empty_first str (suc k) (c ∷ ds) s =
    let (e, ne) = Begins-char s in rw (e, ne→== (str 0) 0 ne, ne→== (suc k) 0 (omega arith))

-- After `set` of a C string of `n` characters the size is `n`, or one less than the room, and the string
-- equals the C string just where that has room with its terminator.
pub equal_c_string-set_c_string :
    (str : ℕ → ℕ) (n : ℕ) (d : List ℕ)
    → 0 < length d
    → IsString str n (length d)
    → (string_size (set_c_string str d) ≡ min n (length d - 1))
      × (equal_c_string (set_c_string str d) (some str) ≡ leb n (length d - 1))
unfolding equal_c_string
equal_c_string-set_c_string str n d room s =
    let w = set_c_string-Stored str n d room s in
    let k = min n (length d - 1) in
    let b : Begins str 0 k (set_c_string str d) = record {
      characters = λ j lt.
          let e : 0 + j ≡ j = omega arith in rw e (w.characters j lt, s.characters j (omega arith));
      end = w.terminated k (omega arith) (omega arith);
    } in
    (
      string_size-Begins str 0 k (set_c_string str d) b,
      rw
          (
            empty_first str k (set_c_string str d) b,
            equal_c_from-Begins str 0 k (set_c_string str d) b,
          )
          (either k ∙ elim (Bool-cases (leb n (length d - 1))) [
            | inl fits ↦
                let whole : k ≡ n = omega (arith, leb→le n (length d - 1) fits) in
                rw fits (
                  eq→== (str k) 0
                    (ap str whole ∙ s.end (omega (arith, leb→le n (length d - 1) fits))))
            | inr long ↦
                rw long
                  (ne→== (str k) 0 (s.characters k (omega (arith, leb→lt n (length d - 1) long))))
          ]),
    )
  where
    either : (k : ℕ) → (if k == 0 then str 0 == 0 else str (0 + k) == 0) ≡ (str k == 0)
    either k = elim (Bool-cases (k == 0)) [
      | inl start ↦ rw start (ap (λ m. str m == 0) (sym (==→eq k 0 start)))
      | inr later ↦ let e : 0 + k ≡ k = omega arith in rw (later, e)
    ]
