-- ===== src/Types/HandleBuffer/Fill.antt =====
-- A buffer filled from empty to full.
use tklb.Base.{
  ℕ, zero, suc, ◌+◌, ◌≤◌, ◌<◌, ◌≡◌, refl, ◌∙◌, some, List, [], ◌∷◌, length, get_elem?, Run, ok,
  ◌>>=◌, arith,
}
use tklb.Types.HandleBuffer.{Element, HandleBuffer, at, create, resize, mask_index, invalid_handle}
use tklb.Types.HandleBuffer.Fresh.{Fresh, resize-Fresh, at-Fresh, create-Next}

abbrev pub count_from : ℕ → ℕ → List ℕ
count_from k zero = []
count_from k (suc n) = k ∷ count_from (k + 1) n

module _ {A : Type 0} where
  -- A client that creates objects one after the other.
  abbrev pub create_all : List A → HandleBuffer A → Run (List ℕ × HandleBuffer A)
  create_all [] b = ok ([], b)
  create_all (x ∷ xs) b = create x b >>= λ r. create_all xs r.1 >>= λ s. ok (r.0 ∷ s.0, s.1)

  -- The slots from `k` on hold the objects `xs`, and the handles `k`, `k + 1` … lead to them.
  abbrev pub Holds : HandleBuffer A → ℕ → List A → Type 0
  Holds b k [] = Unit {0}
  Holds b k (x ∷ xs) =
      (at b k ≡ ok (some k))
      × ((e : Element A) × (get_elem? b.elements k ≡ some e) × (e.value ≡ some x))
      × Holds b (k + 1) xs

  record Created (b : HandleBuffer A) (n k : ℕ) (xs : List A) (s : HandleBuffer A) : Type 0 where
    rest : Fresh s n (k + length xs)
    holds : Holds s k xs
    before : (i : ℕ) → i < k → get_elem? s.elements i ≡ get_elem? b.elements i

  create_all-Created :
      (xs : List A) (b : HandleBuffer A) (n k : ℕ)
      → Fresh b n k
      → k + length xs ≤ n
      → (s : HandleBuffer A) × (create_all xs b ≡ ok (count_from k (length xs), s))
        × Created b n k xs s
  create_all-Created [] b n k f h =
      let e : k ≡ k + 0 = omega arith in
      (b, refl, record { rest = rw e at f; holds = tt; before = λ i lt. refl })
  create_all-Created (x ∷ xs) b n k f h =
      let ((hd, b'), e, next) = create-Next b n k f x (omega arith) in
      let (s, e', c) = create_all-Created xs b' n (k + 1) next.rest (omega arith) in
      let sum : k + 1 + length xs ≡ k + suc (length xs) = omega arith in
      let (v, p, q) = next.value in
      (
        s,
        rw (e, ◌>>=◌, e', next.handle),
        record {
          rest = rw sum at c.rest;
          holds = (
            at-Fresh s n (k + 1 + length xs) c.rest k (omega arith),
            (v, c.before k (omega arith) ∙ p, q),
            c.holds,
          );
          before = λ i lt. c.before i (omega arith) ∙ next.other i (omega arith);
        },
      )

  create-full :
      (b : HandleBuffer A) (n k : ℕ)
      → Fresh b n k
      → k ≡ n
      → (x : A) → create x b ≡ ok (invalid_handle, b)
  unfolding create
  create-full b n k f e x = ground (arith, f.start)

  -- A buffer whose list of free slots starts at the slot 0, as that of a new buffer does, resized to `n` slots,
  -- where `n` is not 0 and is less than `mask_index`, takes `n` objects: `create` hands out the handles
  -- 0, 1, … in order, all of them different, each leads to the object that was created for it, also
  -- after the later calls, and when all slots are taken `create` returns the invalid handle and
  -- changes nothing.
  pub create_all-resize :
      (b : HandleBuffer A) (n : ℕ) (xs : List A) (x : A)
      → b.start ≡ 0
      → 0 < n
      → n < mask_index
      → length xs ≡ n
      → (b' s : HandleBuffer A) × (resize b n ≡ ok b')
        × (create_all xs b' ≡ ok (count_from 0 n, s))
        × Holds s 0 xs
        × (create x s ≡ ok (invalid_handle, s))
  create_all-resize b n xs x start pos small len =
      let (b', e, f) = resize-Fresh b n start pos small in
      let (s, e', c) = create_all-Created xs b' n 0 f (omega arith) in
      (b', s, e, rw (← len) e', c.holds, create-full s n (0 + length xs) c.rest (omega arith) x)
