-- ===== src/Types/HeapBuffer/Allocate.antt =====
-- The private `allocate`: the objects move to the new block, and the old one is given back.
use tklb.Base.{
  ℕ, ◌+◌, ◌*◌, ◌/◌, ◌^◌, ◌≤◌, ◌<◌, ◌≡◌, refl, ap, ◌∙◌, min, Bool, true, false, Option, none, some,
  List, [], length, replicate, ltb, ◌==◌, if◌then◌else◌, ok, ◌>>=◌, arith, length-replicate, eq-nil,
  inl, inr, Bool-cases, ltb→lt, ltb→le, lt→ltb, ne→==, eq→==, mul32,
}
use native.Mathlib.Nat.{mod-eq_of_lt, mul-div_cancel}
use tklb.Types.HeapBuffer.{Heap, Memory, HeapBuffer, allocate, moved_cells, give_back, deallocate}
use tklb.Types.HeapBuffer.Owned.{Filled, HoldsIn, copy_cells-Filled}

-- The block `j` belongs to the buffer.
abbrev pub owns : {A : Type 0} → Option (Memory A) → ℕ → Bool
owns none j = false
owns (some m) j = j == m.name

module _ {A : Type 0} where
  -- The heap after the old block of `buf` has been given back: every other block is as before.
  abbrev pub Released : Heap → Heap → Option (Memory A) → Type 0
  Released h h' buf = (j : ℕ) → j < h.next → h'.live j ≡ (if owns buf j then false else h.live j)

  pub give_back-Released :
      (buf : Option (Memory A)) (size real : ℕ) (h : Heap) (xs : List A)
      → HoldsIn h buf real xs
      → (h' : Heap) × (give_back (record { buf = buf; size = size; real_size = real }) buf h
          ≡ ok h')
        × (h'.next ≡ h.next)
        × ((j : ℕ) → h'.live j ≡ (if owns buf j then false else h.live j))
  unfolding give_back deallocate
  give_back-Released none size real h xs o = (h, refl, refl, λ j. refl)
  give_back-Released (some m) size real h xs o = (_, rw (lt→ltb 0 real o.0, o.2), refl, λ j. refl)

  moved_cells-Filled :
      (buf : Option (Memory A)) (size real chunk : ℕ) (h : Heap) (xs : List A)
      → HoldsIn h buf real xs
      → length xs ≤ size
      → size ≤ real
      → length xs ≤ chunk
      → (cells : List (Option A)) × (moved_cells
            (record { buf = buf; size = size; real_size = real })
            chunk
            buf
            (replicate chunk none)
          ≡ ok cells)
        × (length cells ≡ chunk)
        × Filled cells xs
  unfolding moved_cells
  moved_cells-Filled none size real chunk h xs o lo hi fits =
      (replicate chunk none, refl, length-replicate chunk none, (replicate chunk none, rw o.1))
  moved_cells-Filled (some m) size real chunk h xs o lo hi fits = elim (Bool-cases (ltb 0 size)) [
    | inl some_objects ↦
        let (cells, e, len, f) =
          copy_cells-Filled m.cells (replicate chunk none) xs (min size chunk) o.4 (omega arith)
            (omega (arith, o.1)) (omega (arith, length-replicate {0} {A = Option A} chunk none)) in
        (cells, rw (some_objects, e), len ∙ length-replicate chunk none, f)
    | inr no_objects ↦
        let nothing : xs ≡ [] = eq-nil xs (omega (arith, ltb→le 0 size no_objects)) in
        (
          replicate chunk none,
          rw no_objects,
          length-replicate chunk none,
          (replicate chunk none, rw nothing),
        )
  ]

-- The heap after a block has been allocated.
abbrev pub taken : Heap → Heap
taken h = record { next = h.next + 1; live = λ j. if j == h.next then true else h.live j }

module _ {A : Type 0} where
  taken-HoldsIn :
      (h : Heap) (buf : Option (Memory A)) (real : ℕ) (xs : List A)
      → HoldsIn h buf real xs
      → HoldsIn (taken h) buf real xs
  taken-HoldsIn h none real xs o = o
  taken-HoldsIn h (some m) real xs o =
      (o.0, o.1, rw (ne→== m.name h.next (omega (arith, o.3))) o.2, omega (arith, o.3), o.4)

  not-owns_next :
      (h : Heap) (buf : Option (Memory A)) (real : ℕ) (xs : List A)
      → HoldsIn h buf real xs
      → owns buf h.next ≡ false
  not-owns_next h none real xs o = refl
  not-owns_next h (some m) real xs o = ne→== h.next m.name (omega (arith, o.3))

module _ {A : Type 0} (granted : Heap → ℕ → Bool) (width alignment : ℕ)
    (always : (h : Heap) (n : ℕ) → granted h n ≡ true) (wide : 0 < width) where
  -- What `allocate` leaves, where the allocator grants the request.
  pub record Allocated (h : Heap) (b : HeapBuffer A) (chunk : ℕ) (xs : List A) : Type 0 where
    pub buffer : HeapBuffer A
    pub heap : Heap
    pub run : allocate granted width alignment h b chunk ≡ ok (true, buffer, heap)
    pub size : buffer.size ≡ b.size
    pub real_size : buffer.real_size ≡ chunk
    pub holds : HoldsIn heap buffer.buf chunk xs
    pub released : Released h heap b.buf

  pub allocate-Allocated :
      (h : Heap) (b : HeapBuffer A) (chunk : ℕ) (xs : List A)
      → HoldsIn h b.buf b.real_size xs
      → length xs ≤ b.size
      → b.size ≤ b.real_size
      → length xs ≤ chunk
      → chunk * width < 2 ^ 32
      → Allocated h b chunk xs
  unfolding allocate
  allocate-Allocated h b chunk xs o lo hi fits small = elim (Bool-cases (ltb 0 chunk)) [
    | inl some_room ↦ grow some_room
    | inr no_room ↦ drop_all no_room
  ]
    where
      exact : mul32 chunk width ≡ chunk * width
      exact = mod-eq_of_lt small

      room : mul32 chunk width / width ≡ chunk
      room = ap (λ n. n / width) exact ∙ mul-div_cancel chunk wide

      grow : ltb 0 chunk ≡ true → Allocated h b chunk xs
      grow some_room =
          let (cells, e, len, f) =
            moved_cells-Filled b.buf b.size b.real_size chunk h xs o lo hi fits in
          let (h', e', n, rel) =
            give_back-Released b.buf b.size b.real_size (taken h) xs
              (taken-HoldsIn h b.buf b.real_size xs o) in
          let own : h'.live h.next ≡ true =
            rel h.next ∙ rw (not-owns_next h b.buf b.real_size xs o, eq→== h.next h.next refl) in
          record {
            buffer = record b {
              buf = some (record { name = h.next; cells = cells });
              real_size = chunk;
            };
            heap = h';
            run = rw (some_room, always h (mul32 chunk width + alignment), room, e, ◌>>=◌, e');
            size = refl;
            real_size = refl;
            holds = (ltb→lt 0 chunk some_room, len, own, omega (arith, n), f);
            released = λ j lt. rel j ∙ rw (ne→== j h.next (omega arith));
          }

      drop_all : ltb 0 chunk ≡ false → Allocated h b chunk xs
      drop_all no_room =
          let (h', e', n, rel) = give_back-Released b.buf b.size b.real_size h xs o in
          let zero_chunk : chunk ≡ 0 = omega (arith, ltb→le 0 chunk no_room) in
          record {
            buffer = record b { buf = none; real_size = chunk };
            heap = h';
            run = rw (no_room, e');
            size = refl;
            real_size = refl;
            holds = (zero_chunk, eq-nil xs (omega arith));
            released = λ j lt. rel j;
          }
