-- ===== src/Types/HeapBuffer/Gap.antt =====
-- What becomes of the objects when one is removed and the last moves into the gap.
use tklb.Base.{
  ℕ, suc, ◌+◌, ◌-◌, ◌≡◌, refl, ap, sym, ◌∙◌, true, false, Option, none, some, List, [], ◌∷◌, ◌++◌,
  length, get_elem?, take, drop, leb, ok, ◌>>=◌, arith, length-append, append_assoc, map-append,
  le→leb, ne→==, eq→==,
}
use tklb.Types.HeapBuffer.{
  Heap, Memory, remove_at, destroy, construct, object_at, put_cells, on_cells,
}
use tklb.Types.HeapBuffer.Owned.{HoldsIn, objects}
use tklb.Types.HeapBuffer.Cut.{buffer_of}

module _ {A : Type 0} where
  take-front : (us vs : List A) → take (length us) (us ++ vs) ≡ us
  take-front [] vs = refl
  take-front (a ∷ us) vs = ap (λ t. a ∷ t) (take-front us vs)

  drop-front : (us vs : List A) (b : A) → drop (suc (length us)) (us ++ b ∷ vs) ≡ vs
  drop-front [] vs b = refl
  drop-front (a ∷ us) vs b = drop-front us vs b

  get-front : (us vs : List A) (b : A) → get_elem? (us ++ b ∷ vs) (length us) ≡ some b
  get-front [] vs b = refl
  get-front (a ∷ us) vs b = get-front us vs b

module _ {A : Type 0} where
  put_cells-at :
      (us vs : List (Option A)) (x v : Option A)
      → put_cells (us ++ x ∷ vs) (length us) (v ∷ []) ≡ ok (us ++ v ∷ vs)
  unfolding put_cells
  put_cells-at us vs x v = rw (
    one_up (length us),
    le→leb (suc (length us)) (length (us ++ x ∷ vs)) (omega (arith, length-append us (x ∷ vs))),
    take-front us (x ∷ vs),
    drop-front us vs x,
  )
    where
      one_up : (n : ℕ) → n + 1 ≡ suc n
      one_up n = omega arith

  -- The bytes of the object `z` behind `vs` go into the gap behind `us`.
  pub fill_gap :
      (name real : ℕ) (us vs spare : List (Option A)) (y z : A)
      → let n = length us + (1 + length vs) + 1 in
        remove_at
          (buffer_of
            (some (record { name = name; cells = us ++ some y ∷ (vs ++ some z ∷ spare) }))
            n
            real)
          (length us)
        ≡ ok (
          true,
          buffer_of
              (some (record { name = name; cells = us ++ some z ∷ (vs ++ some z ∷ spare) }))
              (n - 1)
              real,
        )
  unfolding remove_at destroy construct object_at on_cells
  fill_gap name real us vs spare y z = rw (
    le→leb-not (length us) (length vs),
    one_more (length us),
    put_cells-at us (vs ++ some z ∷ spare) (some y) none,
    ◌>>=◌,
    ne→== (length us) (length us + (1 + length vs) + 1 - 1) (omega arith),
    reach,
    ◌>>=◌,
    put_cells-at us (vs ++ some z ∷ spare) none (some z),
  )
    where
      le→leb-not : (a b : ℕ) → leb (a + (1 + b) + 1) a ≡ false
      le→leb-not a b = ground arith

      one_more : (a : ℕ) → a + 1 - a ≡ 1
      one_more a = omega arith

      place : length us + (1 + length vs) + 1 - 1 ≡ length (us ++ none ∷ vs)
      place = omega (arith, length-append us (none ∷ vs))

      reach :
          get_elem? (us ++ none ∷ (vs ++ some z ∷ spare)) (length us + (1 + length vs) + 1 - 1)
          ≡ some (some z)
      reach =
          ap (λ k. get_elem? (us ++ none ∷ (vs ++ some z ∷ spare)) k) place
          ∙ ap (λ cells. get_elem? cells (length (us ++ none ∷ vs)))
              (sym (append_assoc us (none ∷ vs) (some z ∷ spare)))
          ∙ get-front (us ++ none ∷ vs) spare (some z)

  pub holds_gap :
      (h : Heap) (m : Memory A) (real : ℕ) (us vs : List A) (y z : A)
      → HoldsIn h (some m) real (us ++ y ∷ (vs ++ z ∷ []))
      → (spare : List (Option A)) × (m.cells
          ≡ objects us ++ some y ∷ (objects vs ++ some z ∷ spare))
        × HoldsIn h
            (some (record m { cells = objects us ++ some z ∷ (objects vs ++ some z ∷ spare) }))
            real
            (us ++ z ∷ vs)
  holds_gap h m real us vs y z o =
      let (spare, e) = o.4 in
      let e' : m.cells ≡ objects us ++ some y ∷ (objects vs ++ some z ∷ spare) =
        e ∙ simp (map-append, append_assoc) in
      (
        spare,
        e',
        (
          o.0,
          same_length spare ∙ ap length (sym e') ∙ o.1,
          o.2,
          o.3,
          (some z ∷ spare, simp (map-append, append_assoc)),
        ),
      )
    where
      same_length :
          (spare : List (Option A))
          → length (objects us ++ some z ∷ (objects vs ++ some z ∷ spare))
            ≡ length (objects us ++ some y ∷ (objects vs ++ some z ∷ spare))
      same_length spare = omega (
        arith,
        length-append (objects us) (some z ∷ (objects vs ++ some z ∷ spare)),
        length-append (objects us) (some y ∷ (objects vs ++ some z ∷ spare)),
      )

  pub last_gap :
      (name real : ℕ) (us spare : List (Option A)) (y : A)
      → remove_at
          (buffer_of
            (some (record { name = name; cells = us ++ some y ∷ spare }))
            (length us + 1)
            real)
          (length us)
        ≡ ok (
          true,
          buffer_of (some (record { name = name; cells = us ++ none ∷ spare })) (length us) real,
        )
  unfolding remove_at destroy on_cells
  last_gap name real us spare y = rw (
    ahead (length us),
    one_more (length us),
    put_cells-at us spare (some y) none,
    ◌>>=◌,
    same (length us),
    eq→== (length us) (length us) refl,
  )
    where
      ahead : (a : ℕ) → leb (a + 1) a ≡ false
      ahead a = ground arith

      one_more : (a : ℕ) → a + 1 - a ≡ 1
      one_more a = omega arith

      same : (a : ℕ) → a + 1 - 1 ≡ a
      same a = omega arith

  pub holds_last :
      (h : Heap) (m : Memory A) (real : ℕ) (us : List A) (y : A)
      → HoldsIn h (some m) real (us ++ y ∷ [])
      → (spare : List (Option A)) × (m.cells ≡ objects us ++ some y ∷ spare)
        × HoldsIn h (some (record m { cells = objects us ++ none ∷ spare })) real us
  holds_last h m real us y o =
      let (spare, e) = o.4 in
      let e' : m.cells ≡ objects us ++ some y ∷ spare = e ∙ simp (map-append, append_assoc) in
      (
        spare,
        e',
        (o.0, same_length spare ∙ ap length (sym e') ∙ o.1, o.2, o.3, (none ∷ spare, refl)),
      )
    where
      same_length :
          (spare : List (Option A))
          → length (objects us ++ none ∷ spare) ≡ length (objects us ++ some y ∷ spare)
      same_length spare = omega (
        arith,
        length-append (objects us) (none ∷ spare),
        length-append (objects us) (some y ∷ spare),
      )
