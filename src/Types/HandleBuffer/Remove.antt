-- ===== src/Types/HandleBuffer/Remove.antt =====
-- What `remove` does to handles and to the list of free slots.
use tklb.Base.{
  ℕ, ◌+◌, ◌*◌, ◌/◌, ◌%◌, ◌^◌, ◌≤◌, ◌<◌, ◌≡◌, ◌≢◌, refl, sym, ap, true, Option, none, some, length,
  get_elem?, set, Run, ok, fault, ◌>>=◌, sub32, arith, ne→==, length-set, get_elem?-set_self,
  get_elem?-set_ne, get_elem?-lt,
}
use tklb.Types.HandleBuffer.{
  Element, HandleBuffer, at, create, release, remove, next_generation, mask_index, invalid_handle,
  generation_part, index_part, mask_generation,
}

-- `next` is a 32-bit word.
abbrev pub IsWord : ℕ → Type 0
IsWord x = x < 2 ^ 32

-- The generation goes up by one, the last one is not skipped, and 255 is followed by 0.
next_generation_lem : (x : ℕ) → IsWord x → next_generation x ≡ (x / 2 ^ 24 + 1) % 256 * 2 ^ 24
unfolding next_generation
next_generation_lem x h = ground arith

module _ {A : Type 0} where
  -- What a handle that `at` accepts says of its slot.
  pub record Live (b : HandleBuffer A) (handle : ℕ) : Type 0 where
    pub element : Element A
    pub found : get_elem? b.elements (index_part handle) ≡ some element
    pub same : generation_part element.next ≡ generation_part handle
    pub not_last : generation_part element.next ≢ mask_generation
    pub valid : handle ≢ invalid_handle
    pub bounded : index_part handle ≤ length b.elements

  at-Live :
      (b : HandleBuffer A) (handle i : ℕ)
      → at b handle ≡ ok (some i)
      → (i ≡ index_part handle) × Live b handle
  unfolding at
  at-Live b handle i h = split (get_elem? b.elements (index_part handle)) refl
    where
      split :
          (o : Option (Element A))
          → get_elem? b.elements (index_part handle) ≡ o
          → (i ≡ index_part handle) × Live b handle
      split none e = ground (arith, e)
      split (some x) e = (
        ground (arith, e),
        record {
          element = x;
          found = e;
          same = ground (arith, e);
          not_last = ground (arith, e);
          valid = ground (arith, e);
          bounded = ground (arith, e);
        },
      )

  Live-at :
      (b : HandleBuffer A) (handle : ℕ)
      → Live b handle
      → at b handle ≡ ok (some (index_part handle))
  unfolding at
  Live-at b handle l = ground (arith, l.found, l.same, l.not_last, l.valid, l.bounded)

  -- The buffer after `remove`, given the element of the slot.
  abbrev removed : HandleBuffer A → ℕ → Element A → HandleBuffer A
  removed b index e = record {
    elements =
        set b.elements index (record { next = next_generation e.next + index; value = none });
    start = index;
    free = (b.free + 1) % 2 ^ 32;
  }

  remove-Live :
      (b : HandleBuffer A) (handle : ℕ) (l : Live b handle)
      → remove b handle ≡ ok (true, removed b (index_part handle) l.element)
  unfolding remove release
  remove-Live b handle l = rw (Live-at b handle l, ◌>>=◌, l.found)

  remove-inversion :
      (b : HandleBuffer A) (handle : ℕ) (b' : HandleBuffer A)
      → remove b handle ≡ ok (true, b')
      → (l : Live b handle) × (b' ≡ removed b (index_part handle) l.element)
  unfolding remove
  remove-inversion b handle b' h = split (at b handle) refl
    where
      split :
          (r : Run (Option ℕ))
          → at b handle ≡ r
          → (l : Live b handle) × (b' ≡ removed b (index_part handle) l.element)
      split fault e = ground (arith, e)
      split (ok none) e = ground (arith, e)
      split (ok (some i)) e = let l = (at-Live b handle i e).1 in (l, cc (remove-Live b handle l))

module _ {A : Type 0} (b : HandleBuffer A) (handle : ℕ) (b' : HandleBuffer A) (word : IsWord handle)
    (done : remove b handle ≡ ok (true, b')) where
  abbrev index : ℕ
  index = index_part handle

  abbrev live : Live b handle
  live = (remove-inversion b handle b' done).0

  inside : index < length b.elements
  inside = get_elem?-lt b.elements index live.element live.found

  abbrev freed : ℕ
  freed = next_generation live.element.next + index

  freed_lem : freed ≡ (handle / 2 ^ 24 + 1) % 256 * 2 ^ 24 + index
  freed_lem = omega (arith, next_generation_lem live.element.next, live.same)

  elements_lem : b'.elements ≡ set b.elements index (record { next = freed; value = none })
  elements_lem = ap (λ (c : HandleBuffer A). c.elements) (remove-inversion b handle b' done).1

  start_lem : b'.start ≡ index
  start_lem = ap (λ (c : HandleBuffer A). c.start) (remove-inversion b handle b' done).1

  slot_lem : get_elem? b'.elements index ≡ some (record { next = freed; value = none })
  slot_lem = rw elements_lem (get_elem?-set_self b.elements index _ inside)

  length_lem : length b'.elements ≡ length b.elements
  length_lem = rw elements_lem (length-set b.elements index _)

  -- After a successful `remove` the handle is stale: `at` refuses it, whatever its generation was.
  pub at-remove_stale : at b' handle ≡ ok none
  unfolding at
  at-remove_stale = ground (arith, slot_lem, freed_lem, length_lem, inside)

  -- A successful `remove` changes nothing for a handle of another slot.
  pub at-remove_other :
      (other : ℕ) → index_part other ≢ index_part handle → at b' other ≡ at b other
  unfolding at
  at-remove_other other ne = rw (
    elements_lem,
    length-set b.elements index,
    get_elem?-set_ne b.elements index (index_part other) _ (λ e. ne (sym e)),
  )

  abbrev reused : ℕ
  reused = (handle / 2 ^ 24 + 1) % 256 * 2 ^ 24 + index

  index-reused : index_part reused ≡ index
  index-reused = omega arith

  -- The buffer after `create` has put `x` in the slot that was freed.
  abbrev refilled : A → HandleBuffer A → HandleBuffer A
  refilled x c = record {
    elements = set c.elements index (record { next = freed; value = some x });
    start = index;
    free = sub32 c.free 1;
  }

  create-refilled :
      (x : A) (c : HandleBuffer A) (v : Option A)
      → length b.elements ≤ mask_index
      → c.start ≡ index
      → get_elem? c.elements index ≡ some (record { next = freed; value = v })
      → create x c ≡ ok (reused, refilled x c)
  unfolding create
  create-refilled x c v small at_index found =
      rw (at_index, ne→== index mask_index (omega (arith, inside)), found, ◌>>=◌)
        (λ i. ok (
          handle_eq i,
          record {
            elements = set c.elements index (record { next = freed; value = some x });
            start = index_eq i;
            free = sub32 c.free 1;
          },
        ))
    where
      handle_eq : index + generation_part freed ≡ reused
      handle_eq = omega (arith, freed_lem)

      index_eq : index_part freed ≡ index
      index_eq = omega (arith, freed_lem)

  -- A slot that was freed is the first and the last of the free ones, since it is linked to itself:
  -- the next two calls of `create` hand out one and the same handle.
  pub create-remove_twice :
      (x y : A)
      → length b.elements ≤ mask_index
      → (c d : HandleBuffer A) × (create x b' ≡ ok (reused, c)) × (create y c ≡ ok (reused, d))
  create-remove_twice x y small = (
    refilled x b',
    refilled y (refilled x b'),
    create-refilled x b' none small start_lem slot_lem,
    create-refilled y (refilled x b') (some x) small refl
        (get_elem?-set_self b'.elements index _ (omega (arith, inside, length_lem))),
  )

  -- A slot freed at generation 254 gets generation 255, which marks a slot without an object: the
  -- handle that the next `create` returns is refused by `at`.
  pub at-create-remove_last :
      (x : A)
      → length b.elements ≤ mask_index
      → handle / 2 ^ 24 ≡ 254
      → (c : HandleBuffer A) × (create x b' ≡ ok (reused, c)) × (at c reused ≡ ok none)
  unfolding at
  at-create-remove_last x small last = (
    refilled x b',
    create-refilled x b' none small start_lem slot_lem,
    rw (index-reused, get_elem?-set_self b'.elements index _ (omega (arith, inside, length_lem)))
        (ground (arith, freed_lem)),
  )
