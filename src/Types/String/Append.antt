-- ===== src/Types/String/Append.antt =====
-- `append` and `prepend`.
use tklb.Base.{
  ℕ, suc, ◌+◌, ◌-◌, ◌<◌, ◌^◌, ◌≡◌, refl, ap, sym, ◌∙◌, List, [], ◌∷◌, ◌++◌, length, length-append,
  length-take, length-replicate, get_elem?, set, take, take_of_ge, replicate, none, some, Option,
  lt→ltb, le→ltb, ok, fault, ◌>>=◌, add32, sub32, add32_lem, sub32_lem, arith, append_assoc,
}
use tklb.Types.String.{resized_to, put_at, append_from, append, move_from, prepend, terminator}

set-append : (a : List ℕ) (x y : ℕ) (b : List ℕ) → set (a ++ x ∷ b) (length a) y ≡ a ++ y ∷ b
set-append [] x y b = refl
set-append (c ∷ a) x y b = ap (λ t. c ∷ t) (set-append a x y b)

get_elem?-append : (a : List ℕ) (y : ℕ) (b : List ℕ) → get_elem? (a ++ y ∷ b) (length a) ≡ some y
get_elem?-append [] y b = refl
get_elem?-append (c ∷ a) y b = get_elem?-append a y b

append_round :
    (n i start m c : ℕ) (b a : List ℕ)
    → get_elem? b i ≡ some c
    → add32 start i ≡ m
    → m < length a
    → append_from (suc n) i start b a ≡ append_from n (i + 1) start b (set a m c)
unfolding append_from put_at
append_round n i start m c b a e₁ e₂ lt = rw (e₁, ◌>>=◌, e₂, lt→ltb m (length a) lt, ◌>>=◌)

-- The loop writes the characters of `b` that are left behind those that are there.
append_from-append :
    (done rest front old : List ℕ) (start : ℕ)
    → length old ≡ length rest
    → length front ≡ start + length done
    → start + length done + length rest < 2 ^ 32
    → append_from (length rest) (length done) start (done ++ rest) (front ++ old)
      ≡ ok (front ++ rest)
unfolding append_from
append_from-append done [] front [] start e place small = refl
append_from-append done [] front (o ∷ old) start e place small = absurd (omega arith)
append_from-append done (c ∷ rest) front [] start e place small = absurd (omega arith)
append_from-append done (c ∷ rest) front (o ∷ old) start e place small =
    let front' = front ++ c ∷ [] in
    let done' = done ++ c ∷ [] in
    let written : set (front ++ o ∷ old) (length front) c ≡ front' ++ old =
      set-append front o c old ∙ sym (append_assoc front (c ∷ []) old) in
    let one_more : length done + 1 ≡ length done' = omega (arith, length-append done (c ∷ [])) in
    append_round (length rest) (length done) start (length front) c (done ++ c ∷ rest)
      (front ++ o ∷ old) (get_elem?-append done c rest)
      (add32_lem start (length done) (omega arith) ∙ sym place)
      (omega (arith, length-append front (o ∷ old)))
    ∙ ap (append_from (length rest) (length done + 1) start (done ++ c ∷ rest)) written
    ∙ ap (λ m. append_from (length rest) m start (done ++ c ∷ rest) (front' ++ old)) one_more
    ∙ ap (λ b. append_from (length rest) (length done') start b (front' ++ old))
        (sym (append_assoc done (c ∷ []) rest))
    ∙ append_from-append done' rest front' old start (omega arith)
        (omega (arith, length-append front (c ∷ []))) (omega arith)
    ∙ ap ok (append_assoc front (c ∷ []) rest)

resized_to-append :
    (text b : List ℕ)
    → 0 < length b
    → resized_to (length text + length b) (text ++ 0 ∷ []) ≡ text ++ replicate (length b) 0
unfolding resized_to
resized_to-append text b pos =
    let size : length (text ++ 0 ∷ []) ≡ suc (length text) =
      omega (arith, length-append text (0 ∷ [])) in
    let left : length text + length b - suc (length text) ≡ length b - 1 = omega arith in
    rw (size, left, take_of_ge (length text + length b) (text ++ 0 ∷ []) (omega (arith, size)))
      (append_assoc text (0 ∷ []) (replicate (length b - 1) 0)
        ∙ ap (λ n. text ++ replicate n 0) (from_less (length b) pos))
  where
    from_less : (n : ℕ) → 0 < n → suc (n - 1) ≡ n
    from_less n h = omega arith

-- `append` to a string with its terminator puts the other string, its terminator included, in place of
-- that, where the sizes fit 32 bits.
pub append_lem :
    (text b : List ℕ)
    → length text + length b < 2 ^ 32
    → 0 < length b
    → append b (text ++ terminator ∷ []) ≡ ok (text ++ b)
unfolding append resized_to
append_lem text b small some_char =
    let n = length text in
    let size : length (text ++ terminator ∷ []) ≡ suc n =
      omega (arith, length-append text (terminator ∷ [])) in
    let start : sub32 (suc n) 1 ≡ n =
      sub32_lem (suc n) 1 (omega arith) (omega arith) ∙ one_less n in
    let content : take (n + length b) (text ++ terminator ∷ [])
          ++ replicate (n + length b - suc n) terminator
        ≡ text ++ replicate (length b) 0 =
      ap
        (λ k.
          take (n + length b) (text ++ terminator ∷ []) ++ replicate (n + length b - k) terminator)
        (sym size)
      ∙ resized_to-append text b some_char in
    rw (size, start, add32_lem n (length b) small)
      (ap (append_from (length b) 0 n b) content
        ∙ append_from-append [] b text (replicate (length b) 0) n (length-replicate (length b) 0)
            (omega arith) (omega arith))
  where
    one_less : (n : ℕ) → suc n - 1 ≡ n
    one_less n = omega arith

move_from-fault : (n old : ℕ) (a : List ℕ) → length a < 2 ^ 32 → move_from (suc n) 0 old a ≡ fault
unfolding move_from put_at
move_from-fault n old a small = by_read (get_elem? a (sub32 old 0)) refl
  where
    by_read : (o : Option ℕ) → get_elem? a (sub32 old 0) ≡ o → move_from (suc n) 0 old a ≡ fault
    by_read none e = rw e
    by_read (some c) e = rw (
      e,
      ◌>>=◌,
      sub32_lem (length a) 0 (omega arith) small,
      le→ltb (length a - 0) (length a) (omega arith),
    )

-- `prepend` to a string with at least its terminator moves a character to behind the end.
pub prepend-fault :
    (b a : List ℕ)
    → 0 < length a
    → 0 < length b
    → length a + length b < 2 ^ 32
    → prepend b a ≡ fault
unfolding prepend resized_to
prepend-fault b [] pos pos' small = absurd (omega arith)
prepend-fault b (x ∷ a) pos pos' small =
    let n = length (x ∷ a) in
    let target = take (n + length b - 1) (x ∷ a) ++ replicate (n + length b - 1 - n) terminator in
    let size : length target ≡ n + length b - 1 =
      length-append (take (n + length b - 1) (x ∷ a)) (replicate (n + length b - 1 - n) terminator)
      ∙ omega (
        arith,
        length-take (n + length b - 1) (x ∷ a),
        length-replicate (n + length b - 1 - n) terminator,
      ) in
    rw (
      add32_lem n (length b) small,
      sub32_lem (n + length b) 1 (omega arith) small,
      move_from-fault (length a) n target (omega (arith, size)),
    )
