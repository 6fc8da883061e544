-- ===== src/Types/String/Search.antt =====
-- `contains`.
use tklb.Base.{
  ℕ, zero, suc, ◌+◌, ◌<◌, ◌≡◌, ◌^◌, refl, ap, ◌∙◌, false, List, [], ◌∷◌, length, ok, ◌>>=◌, sub32,
  arith, get_elem?_of_lt, lt→ltb, le→ltb, eq→==, ne→==,
}
use tklb.Types.String.{match_from, contains_from, contains}

match_from_self :
    (n : ℕ) (a : List ℕ) (j : ℕ) → j + n ≡ length a → match_from n a a 0 j ≡ ok (j + n)
unfolding match_from
match_from_self zero a j e = ap ok (omega arith)
match_from_self (suc n) a j e =
    let (c, g) = get_elem?_of_lt a j (omega arith) in
    let front : 0 + j ≡ j = omega arith in
    let shift : j + 1 + n ≡ j + suc n = omega arith in
    rw (front, g, eq→== c c refl) (match_from_self n a (j + 1) (omega arith) ∙ ap ok shift)

later_rounds : (n : ℕ) (a : List ℕ) → contains_from n (0 + 1) a a ≡ ok false
unfolding contains_from
later_rounds zero a = refl
later_rounds (suc n) a = rw (lt→ltb (length a) (0 + 1 + length a) (omega arith))

all_rounds :
    (n : ℕ) (a : List ℕ) → 0 < length a → length a < 2 ^ 32 → contains_from (suc n) 0 a a ≡ ok false
unfolding contains_from
all_rounds n a pos small = rw (
  le→ltb (length a) (0 + length a) (omega arith),
  match_from_self (length a) a 0 (omega arith),
  ◌>>=◌,
  ne→== (0 + length a) (sub32 (length a) 1) (λ e. omega (arith, e)),
  later_rounds n a,
)

contains-none : contains_from 0 0 [] [] ≡ ok false
unfolding contains_from
contains-none = refl

-- No string contains itself, as far as `contains` says.
pub contains_self : (a : List ℕ) → length a < 2 ^ 32 → contains a a ≡ ok false
unfolding contains
contains_self [] small = contains-none
contains_self (c ∷ cs) small = all_rounds (length cs) (c ∷ cs) (omega arith) small
