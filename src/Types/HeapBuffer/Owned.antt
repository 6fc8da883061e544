-- ===== src/Types/HeapBuffer/Owned.antt =====
-- A buffer that owns its memory, seen as the list of its objects.
use tklb.Base.{
  ℕ, ◌+◌, ◌-◌, ◌≤◌, ◌<◌, ◌≡◌, ap, ◌∙◌, true, Option, none, some, List, [], ◌++◌, map, length, take,
  drop, replicate, ok, arith, length-append, length-take, length-drop, length-replicate, length-map,
  take-map, take-append_of_le, take-append_of_ge, take_of_ge, le→leb, append_assoc, map-append,
}
use tklb.Types.HeapBuffer.{Heap, Memory, HeapBuffer, put_cells, copy_cells}

module _ {A : Type 0} where
  -- The cells hold the objects `xs`, and `spare` more follow.
  abbrev pub Filled : List (Option A) → List A → Type 0
  Filled cells xs = (spare : List (Option A)) × (cells ≡ map some xs ++ spare)

  -- Without memory there are no objects; with memory it is allocated, has as many cells as the buffer
  -- believes, and its first cells hold the objects.
  abbrev pub HoldsIn : Heap → Option (Memory A) → ℕ → List A → Type 0
  HoldsIn h none real xs = (real ≡ 0) × (xs ≡ [])
  HoldsIn h (some m) real xs =
      (0 < real)
      × (length m.cells ≡ real)
      × (h.live m.name ≡ true)
      × (m.name < h.next)
      × Filled m.cells xs

  pub record Holds (h : Heap) (b : HeapBuffer A) (xs : List A) : Type 0 where
    pub size : b.size ≡ length xs
    pub memory : HoldsIn h b.buf b.real_size xs

  abbrev pub objects : List A → List (Option A)
  objects xs = map some xs

  pub length-objects : (xs : List A) → length (objects xs) ≡ length xs
  length-objects xs = length-map some xs

  length-put :
      (cells : List (Option A)) (i : ℕ) (vs : List (Option A))
      → i + length vs ≤ length cells
      → length (take i cells ++ (vs ++ drop (i + length vs) cells)) ≡ length cells
  length-put cells i vs h = omega (
    arith,
    length-append (take i cells) (vs ++ drop (i + length vs) cells),
    length-append vs (drop (i + length vs) cells),
    length-take i cells,
    length-drop (i + length vs) cells,
  )

  front_part :
      (cells : List (Option A)) (xs : List A) (n : ℕ) (spare : List (Option A))
      → cells ≡ map some xs ++ spare
      → n ≤ length xs
      → take n cells ≡ map some (take n xs)
  front_part cells xs n spare e h =
      ap (take n) e
      ∙ take-append_of_le n (map some xs) spare (omega (arith, length-objects xs))
      ∙ take-map some n xs

  front :
      (cells : List (Option A)) (xs : List A) (spare : List (Option A))
      → cells ≡ map some xs ++ spare
      → take (length xs) cells ≡ map some xs
  front cells xs spare e =
      front_part cells xs (length xs) spare e (omega arith)
      ∙ ap (map some) (take_of_ge (length xs) xs (omega arith))

  -- Writing `vs` behind the objects, where there are cells for them.
  pub put_cells-Filled :
      (cells : List (Option A)) (xs vs : List A)
      → Filled cells xs
      → length xs + length vs ≤ length cells
      → (cells' : List (Option A)) × (put_cells cells (length xs) (map some vs) ≡ ok cells')
        × (length cells' ≡ length cells)
        × Filled cells' (xs ++ vs)
  unfolding put_cells
  put_cells-Filled cells xs vs (spare, e) h =
      let n = length-objects vs in
      let rest = drop (length xs + length (objects vs)) cells in
      (
        take (length xs) cells ++ (map some vs ++ rest),
        rw (le→leb (length xs + length (objects vs)) (length cells) (omega (arith, n))),
        length-put cells (length xs) (map some vs) (omega (arith, n)),
        (rest, rw (front cells xs spare e) joined),
      )
    where
      joined :
          map some xs ++ (map some vs ++ drop (length xs + length (objects vs)) cells)
          ≡ map some (xs ++ vs) ++ drop (length xs + length (objects vs)) cells
      joined = simp (map-append, append_assoc)

  -- Clearing the cells from `n` on.
  pub put_cells-clear :
      (cells : List (Option A)) (xs : List A) (n : ℕ)
      → Filled cells xs
      → n ≤ length xs
      → length xs ≤ length cells
      → (cells' : List (Option A)) × (put_cells cells n (replicate (length xs - n) none)
          ≡ ok cells')
        × (length cells' ≡ length cells)
        × Filled cells' (take n xs)
  unfolding put_cells
  put_cells-clear cells xs n (spare, e) h k =
      let blank : List (Option A) = replicate (length xs - n) none in
      let m : length blank ≡ length xs - n = length-replicate (length xs - n) none in
      let rest = drop (n + length blank) cells in
      (
        take n cells ++ (blank ++ rest),
        rw (le→leb (n + length blank) (length cells) (omega (arith, m))),
        length-put cells n blank (omega (arith, m)),
        (blank ++ rest, ap (λ t. t ++ (blank ++ rest)) (front_part cells xs n spare e h)),
      )

  -- Copying the first `n` cells, at least those with objects, into cells of another block.
  pub copy_cells-Filled :
      (cells fresh : List (Option A)) (xs : List A) (n : ℕ)
      → Filled cells xs
      → length xs ≤ n
      → n ≤ length cells
      → n ≤ length fresh
      → (cells' : List (Option A)) × (copy_cells n fresh cells ≡ ok cells')
        × (length cells' ≡ length fresh)
        × Filled cells' xs
  unfolding copy_cells
  copy_cells-Filled cells fresh xs n (spare, e) lo hi k = (
    take n cells ++ drop n fresh,
    rw (le→leb n (length fresh) k, le→leb n (length cells) hi),
    omega (
      arith,
      length-append (take n cells) (drop n fresh),
      length-take n cells,
      length-drop n fresh,
    ),
    (take (n - length xs) spare ++ drop n fresh, joined),
  )
    where
      joined :
          take n cells ++ drop n fresh ≡ objects xs ++ (take (n - length xs) spare ++ drop n fresh)
      joined =
          ap (λ t. take n t ++ drop n fresh) e
          ∙ ap (λ t. t ++ drop n fresh)
              (take-append_of_ge n (objects xs) spare (omega (arith, length-objects xs)))
          ∙ append_assoc (objects xs) (take (n - length (objects xs)) spare) (drop n fresh)
          ∙ ap (λ k. objects xs ++ (take (n - k) spare ++ drop n fresh)) (length-objects xs)
