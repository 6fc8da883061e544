-- ===== src/Types/HeapBuffer/Find.antt =====
-- `remove(object)`: the search for the object by `==`.
use tklb.Base.{
  ℕ, suc, ◌+◌, ◌≡◌, refl, ap, sym, ◌∙◌, Bool, true, false, Option, none, some, List, [], ◌∷◌, ◌++◌,
  length, get_elem?, ok, ◌>>=◌, arith, length-append, append_assoc, map-append, append-nil,
}
use tklb.Types.HeapBuffer.{
  Heap, Memory, HeapBuffer, object_at, remove_at, remove_from, remove_object,
}
use tklb.Types.HeapBuffer.Owned.{HoldsIn, Holds, objects}

module _ {A : Type 0} where
  get_elem-middle :
      (us : List A) (y : A) (rest : List (Option A))
      → get_elem? (objects us ++ some y ∷ rest) (length us) ≡ some (some y)
  get_elem-middle [] y rest = refl
  get_elem-middle (u ∷ us) y rest = get_elem-middle us y rest

  -- The object behind `us`.
  pub object_at-middle :
      (h : Heap) (buf : Option (Memory A)) (real : ℕ) (us vs : List A) (y : A)
      → HoldsIn h buf real (us ++ y ∷ vs)
      → object_at buf (length us) ≡ ok y
  unfolding object_at
  object_at-middle h none real us vs y o =
      absurd (let e = ap length o.1 in omega (arith, length-append us (y ∷ vs)))
  object_at-middle h (some m) real us vs y o =
      let (spare, e) = o.4 in
      let e' : m.cells ≡ objects us ++ some y ∷ (objects vs ++ spare) =
        e ∙ simp (map-append, append_assoc) in
      rw (e', get_elem-middle us y (objects vs ++ spare))

  -- No object of the list is equal to `x`.
  abbrev pub Absent : (A → A → Bool) → A → List A → Type 0
  Absent equal x [] = Unit
  Absent equal x (u ∷ us) = (equal u x ≡ false) × Absent equal x us

  remove_from-skip :
      (equal : A → A → Bool) (x : A) (h : Heap) (b : HeapBuffer A) (pre us rest : List A) (n : ℕ)
      → HoldsIn h b.buf b.real_size (pre ++ (us ++ rest))
      → Absent equal x us
      → remove_from equal x (length us + n) (length pre) b
        ≡ remove_from equal x n (length pre + length us) b
  unfolding remove_from
  remove_from-skip equal x h b pre [] rest n o absent =
      ap (λ k. remove_from equal x k (length pre) b) (omega arith)
      ∙ ap (λ i. remove_from equal x n i b) (omega arith)
  remove_from-skip equal x h b pre (u ∷ us) rest n o (differs, absent) =
      let o' : HoldsIn h b.buf b.real_size ((pre ++ u ∷ []) ++ (us ++ rest)) =
        rw (append_assoc pre (u ∷ []) (us ++ rest)) o in
      let count : length (u ∷ us) + n ≡ suc (length us + n) = omega arith in
      let next : length (pre ++ u ∷ []) ≡ length pre + 1 =
        length-append pre (u ∷ []) ∙ omega arith in
      let place : length pre + length (u ∷ us) ≡ length (pre ++ u ∷ []) + length us =
        omega (arith, next) in
      rw
        (
          count,
          place,
          object_at-middle h b.buf b.real_size pre (us ++ rest) u o,
          ◌>>=◌,
          differs,
          sym next,
        )
        (remove_from-skip equal x h b (pre ++ u ∷ []) us rest n o' absent)

  skip_all :
      (equal : A → A → Bool) (x : A) (h : Heap) (b : HeapBuffer A) (us rest : List A) (n : ℕ)
      → HoldsIn h b.buf b.real_size (us ++ rest)
      → Absent equal x us
      → remove_from equal x (length us + n) 0 b ≡ remove_from equal x n (length us) b
  skip_all equal x h b us rest n o absent =
      remove_from-skip equal x h b [] us rest n o absent
      ∙ ap (λ i. remove_from equal x n i b) (omega arith)

  -- `remove` of an object takes out the first one that is equal to it, as `remove` at its index does.
  pub remove_object-remove_at :
      (equal : A → A → Bool) (x : A) (h : Heap) (b : HeapBuffer A) (us : List A) (y : A)
      (vs : List A)
      → Holds h b (us ++ y ∷ vs)
      → Absent equal x us
      → equal y x ≡ true
      → remove_object equal x b ≡ remove_at b (length us)
  unfolding remove_object remove_from
  remove_object-remove_at equal x h b us y vs o absent same =
      let n : b.size ≡ length us + suc (length vs) = o.size ∙ length-append us (y ∷ vs) in
      ap (λ k. remove_from equal x k 0 b) n
      ∙ rw (
        skip_all equal x h b us (y ∷ vs) (suc (length vs)) o.memory absent,
        object_at-middle h b.buf b.real_size us vs y o.memory,
        ◌>>=◌,
        same,
      )

  -- Where no object is equal to it, `remove` of an object fails and changes nothing.
  pub remove_object-Absent :
      (equal : A → A → Bool) (x : A) (h : Heap) (b : HeapBuffer A) (us : List A)
      → Holds h b us
      → Absent equal x us
      → remove_object equal x b ≡ ok (false, b)
  unfolding remove_object remove_from
  remove_object-Absent equal x h b us o absent =
      let n : b.size ≡ length us + 0 = omega (arith, o.size) in
      ap (λ k. remove_from equal x k 0 b) n
      ∙ skip_all equal x h b us [] 0 (rw append-nil o.memory) absent
