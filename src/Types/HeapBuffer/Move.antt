-- ===== src/Types/HeapBuffer/Move.antt =====
-- Who gives the memory back: the destructor, and the move constructor with `disown`.
use tklb.Base.{
  ℕ, ◌-◌, ◌<◌, ◌≡◌, [], refl, ap, ◌∙◌, Bool, true, false, Option, none, some, List, ◌&&◌, ◌||◌,
  length, take, ltb, ◌==◌, if◌then◌else◌, ok, fault, ◌>>=◌, arith, lt→ltb, le→ltb, ne→==, eq→==,
}
use tklb.Types.HeapBuffer.{
  Heap, Memory, HeapBuffer, allocate, construct, is_null, injected, resize, fill, destruct,
  give_back, deallocate, move, disown, empty, closest_chunk_size, chunk_size,
}
use tklb.Types.HeapBuffer.Owned.{Holds}
use tklb.Types.HeapBuffer.Allocate.{owns, give_back-Released}
use tklb.Types.HeapBuffer.Cut.{buffer_of, cut-Rewritten}

module _ {A : Type 0} where
  not-injected_owner :
      (m : Memory A) (size real : ℕ) → 0 < real → injected (buffer_of (some m) size real) ≡ false
  unfolding injected
  not-injected_owner m size real pos = rw (ne→== real 0 (omega arith))

module _ {A : Type 0} (granted : Heap → ℕ → Bool) (width alignment : ℕ) where
  -- The end of a `resize` to nothing.
  drop_memory :
      (fresh : A) (h h' : Heap) (b : HeapBuffer A)
      → 0 < b.real_size
      → give_back b b.buf h ≡ ok h'
      → ((if ltb b.real_size (closest_chunk_size 0 chunk_size)
              || (true && ltb (closest_chunk_size 0 chunk_size) b.real_size)
            then allocate granted width alignment h b (closest_chunk_size 0 chunk_size)
            else ok (true, b, h))
          >>= fill fresh 0)
        ≡ ok (true, buffer_of none 0 0, h')
  unfolding allocate fill closest_chunk_size construct
  drop_memory fresh h h' b pos e =
      let none_left : 0 - b.size ≡ 0 = omega arith in
      rw (le→ltb b.real_size 0 (omega arith), lt→ltb 0 b.real_size pos, e, none_left)

  destruct-memory :
      (fresh : A) (h : Heap) (m : Memory A) (size real : ℕ) (xs : List A)
      → Holds h (buffer_of (some m) size real) xs
      → (h' : Heap) × (destruct granted width alignment fresh h (buffer_of (some m) size real)
          ≡ ok h')
        × ((j : ℕ) → h'.live j ≡ (if owns (some m) j then false else h.live j))
  unfolding destruct resize
  destruct-memory fresh h m size real xs o =
      let r = cut-Rewritten h (some m) size real xs 0 o.memory o.size in
      let (h', e, n, rel) =
        give_back-Released r.buffer.buf r.buffer.size r.buffer.real_size h (take 0 xs)
          (rw r.real_size r.holds) in
      let none_left : 0 - r.buffer.size ≡ 0 = omega arith in
      (
        h',
        rw (
          r.run,
          not-injected_owner m size real o.memory.0,
          ◌>>=◌,
          drop_memory fresh h h' r.buffer (omega (arith, r.real_size, o.memory.0)) e,
        ),
        λ j. rel j ∙ rw (r.same_block j),
      )

  destruct-null :
      (fresh : A) (h : Heap) (size real : ℕ) (xs : List A)
      → Holds h (buffer_of none size real) xs
      → destruct granted width alignment fresh h (buffer_of none size real) ≡ ok h
  unfolding destruct resize injected is_null fill closest_chunk_size construct
  destruct-null fresh h size real xs o =
      let z : size ≡ 0 = o.size ∙ ap length o.memory.1 in rw (z, o.memory.0)

  -- The destructor frees the memory of the buffer and nothing else, whatever the allocator grants.
  pub destruct-Holds :
      (fresh : A) (h : Heap) (b : HeapBuffer A) (xs : List A)
      → Holds h b xs
      → (h' : Heap) × (destruct granted width alignment fresh h b ≡ ok h')
        × ((j : ℕ) → h'.live j ≡ (if owns b.buf j then false else h.live j))
  destruct-Holds fresh h b xs o = split b.buf b.size b.real_size o
    where
      split :
          (buf : Option (Memory A)) (size real : ℕ)
          → Holds h (buffer_of buf size real) xs
          → (h' : Heap) × (destruct granted width alignment fresh h (buffer_of buf size real)
              ≡ ok h')
            × ((j : ℕ) → h'.live j ≡ (if owns buf j then false else h.live j))
      split none size real o = (h, destruct-null fresh h size real xs o, λ j. refl)
      split (some m) size real o = destruct-memory fresh h m size real xs o

  destruct-vacant :
      (fresh : A) (h : Heap) (m : Memory A) (real : ℕ)
      → 0 < real
      → h.live m.name ≡ false
      → destruct granted width alignment fresh h (buffer_of (some m) 0 real) ≡ fault
  unfolding destruct resize injected allocate give_back deallocate closest_chunk_size
  destruct-vacant fresh h m real pos freed =
      rw (ne→== real 0 (omega arith), le→ltb real 0 (omega arith), lt→ltb 0 real pos, freed)

  destruct-injected :
      (fresh : A) (h : Heap) (m : Memory A) (size : ℕ)
      → 0 < size
      → destruct granted width alignment fresh h (buffer_of (some m) size 0) ≡ ok h
  unfolding destruct injected is_null
  destruct-injected fresh h m size pos = rw (lt→ltb 0 size pos)

  -- After a move of a buffer that holds objects, the destructors of the new buffer and of the source
  -- free its memory once and nothing else.
  pub destruct-move :
      (fresh : A) (h : Heap) (m : Memory A) (size real : ℕ) (xs : List A)
      → Holds h (buffer_of (some m) size real) xs
      → 0 < length xs
      → let moved = move (buffer_of (some m) size real) in
        let destruct' = destruct granted width alignment fresh in
        (h' : Heap) × ((destruct' h moved.0 >>= λ g. destruct' g moved.1) ≡ ok h')
        × ((j : ℕ) → h'.live j ≡ (if j == m.name then false else h.live j))
  unfolding move disown empty
  destruct-move fresh h m size real xs o pos =
      let (h', run, rel) = destruct-Holds fresh h (buffer_of (some m) size real) xs o in
      (
        h',
        rw (
          run,
          ◌>>=◌,
          ne→== size 0 (omega (arith, o.size)),
          destruct-injected fresh h' m size (omega (arith, o.size)),
        ),
        rel,
      )

  -- After a move of a buffer that has memory but no objects, both destructors free that memory, which
  -- is undefined.
  pub destruct-move_vacant :
      (fresh : A) (h : Heap) (m : Memory A) (real : ℕ)
      → Holds h (buffer_of (some m) 0 real) []
      → let moved = move (buffer_of (some m) 0 real) in
        let destruct' = destruct granted width alignment fresh in
        (destruct' h moved.0 >>= λ g. destruct' g moved.1) ≡ fault
  unfolding move disown empty
  destruct-move_vacant fresh h m real o =
      let (h', run, rel) = destruct-Holds fresh h (buffer_of (some m) 0 real) [] o in
      let freed : h'.live m.name ≡ false = rel m.name ∙ rw (eq→== m.name m.name refl) in
      rw (run, ◌>>=◌, destruct-vacant fresh h' m real o.memory.0 freed)
