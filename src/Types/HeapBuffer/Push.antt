-- ===== src/Types/HeapBuffer/Push.antt =====
-- `push` and `pop` at the end of a buffer that owns its memory.
use tklb.Base.{
  ℕ, ◌+◌, ◌-◌, ◌*◌, ◌^◌, ◌≤◌, ◌<◌, ◌≡◌, refl, ap, sym, subst, ◌∙◌, Bool, true, false, Option, none,
  some, List, [], ◌∷◌, ◌++◌, length, get_elem?, ltb, ok, ◌>>=◌, read, arith, length-append,
  append_assoc, map-append, inl, inr, Bool-cases, ltb→le, lt→ltb, ne→==, add32, mul32,
}
use tklb.Types.HeapBuffer.{
  Heap, Memory, HeapBuffer, allocate, construct, push, append, pop, object_at, closest_chunk_size,
  chunk_size,
}
use tklb.Types.HeapBuffer.Chunks.{closest_chunk_size_bounds}
use tklb.Types.HeapBuffer.Owned.{Filled, HoldsIn, Holds, objects}
use tklb.Types.HeapBuffer.Allocate.{allocate-Allocated}
use tklb.Types.HeapBuffer.Resize.{Resized}
use tklb.Types.HeapBuffer.Cut.{construct-Rewritten, length-le-real}

module _ {A : Type 0} where
  append-Holds :
      (x : A) (h : Heap) (b : HeapBuffer A) (xs : List A)
      → HoldsIn h b.buf b.real_size xs
      → b.size ≡ length xs
      → length xs + 1 ≤ b.real_size
      → length xs < 2 ^ 32 - 1
      → (b' : HeapBuffer A) × (append x (true, b, h) ≡ ok (true, b', h)) × Holds h b' (xs ++ x ∷ [])
  unfolding append
  append-Holds x h b xs o e room small =
      let c = construct-Rewritten h b.buf b.size b.real_size xs (x ∷ []) o room in
      let built : construct b b.size (x ∷ []) ≡ ok c.buffer =
        subst (λ s. construct b s (x ∷ []) ≡ ok c.buffer) (sym e) c.run in
      (
        record c.buffer { size = add32 b.size 1 },
        rw (built, ◌>>=◌),
        record { size = omega (arith, length-append xs (x ∷ [])); memory = rw c.real_size c.holds },
      )

  object_at-Filled :
      (cells : List (Option A)) (xs : List A) (x : A)
      → Filled cells (xs ++ x ∷ [])
      → (read (get_elem? cells (length xs)) >>= read) ≡ ok x
  object_at-Filled cells xs x (spare, e) = rw (e, map-append, append_assoc, at_end xs (spare))
    where
      at_end :
          (ys : List A) (zs : List (Option A))
          → get_elem? (objects ys ++ (some x ∷ zs)) (length ys) ≡ some (some x)
      at_end [] zs = refl
      at_end (y ∷ ys) zs = at_end ys zs

  shorter :
      (h : Heap) (buf : Option (Memory A)) (real : ℕ) (xs : List A) (x : A)
      → HoldsIn h buf real (xs ++ x ∷ [])
      → HoldsIn h buf real xs
  shorter h none real xs x o =
      absurd (let e = ap length o.1 in omega (arith, length-append xs (x ∷ [])))
  shorter h (some m) real xs x o =
      let (spare, e) = o.4 in
      (o.0, o.1, o.2, o.3, (some x ∷ spare, e ∙ simp (map-append, append_assoc)))

  found :
      (h : Heap) (buf : Option (Memory A)) (real : ℕ) (xs : List A) (x : A)
      → HoldsIn h buf real (xs ++ x ∷ [])
      → object_at buf (length xs) ≡ ok x
  unfolding object_at
  found h none real xs x o =
      absurd (let e = ap length o.1 in omega (arith, length-append xs (x ∷ [])))
  found h (some m) real xs x o = object_at-Filled m.cells xs x o.4

  -- `pop` takes the last object off and keeps the others and the memory.
  pub pop-Holds :
      (h : Heap) (b : HeapBuffer A) (xs : List A) (x : A)
      → Holds h b (xs ++ x ∷ [])
      → (b' : HeapBuffer A) × (pop b ≡ ok (some x, b'))
        × Holds h b' xs
        × (b'.buf ≡ b.buf)
        × (b'.real_size ≡ b.real_size)
  unfolding pop
  pop-Holds h b xs x o =
      let n : b.size ≡ length xs + 1 = o.size ∙ length-append xs (x ∷ []) ∙ omega arith in
      let back : b.size - 1 ≡ length xs = omega arith in
      (
        record b { size = b.size - 1 },
        rw (ne→== b.size 0 (omega arith), back, found h b.buf b.real_size xs x o.memory),
        record { size = back; memory = shorter h b.buf b.real_size xs x o.memory },
        refl,
        refl,
      )

module _ {A : Type 0} (granted : Heap → ℕ → Bool) (width alignment : ℕ) where
  -- Where the allocator grants every request, and the next size in whole chunks and its bytes fit 32
  -- bits, `push` succeeds and puts the object behind the others, in the same memory or in a larger
  -- block to which all objects have moved, and frees no block but the old one.
  pub push-Resized :
      (always : (h : Heap) (n : ℕ) → granted h n ≡ true) (wide : 0 < width) (x : A) (h : Heap)
      (b : HeapBuffer A) (xs : List A)
      → Holds h b xs
      → length xs < 2 ^ 32 - 17
      → closest_chunk_size (length xs + 1) chunk_size * width < 2 ^ 32
      → Resized granted width alignment always wide h b
          (xs ++ x ∷ [])
          (push granted width alignment x h b)
  unfolding push
  push-Resized always wide x h b xs o lt small =
      elim (Bool-cases (ltb b.real_size (length xs + 1))) [
        | inl full ↦
            let bounds = closest_chunk_size_bounds (length xs + 1) (omega arith) in
            let a =
              allocate-Allocated granted width alignment always wide h b chunk xs o.memory
                (omega (arith, o.size)) fits (omega (arith, bounds.0)) small in
            let (b', e, f) =
              append-Holds x a.heap a.buffer xs (rw a.real_size a.holds) (a.size ∙ o.size)
                (omega (arith, a.real_size, bounds.0)) (omega arith) in
            record {
              buffer = b';
              heap = a.heap;
              run = rw (next, full, a.run, ◌>>=◌) e;
              holds = f;
              others = λ j l no. a.released j l ∙ rw no;
            }
        | inr room ↦
            let (b', e, f) =
              append-Holds x h b xs o.memory o.size (ltb→le b.real_size (length xs + 1) room)
                (omega arith) in
            record {
              buffer = b';
              heap = h;
              run = rw (next, room, ◌>>=◌) e;
              holds = f;
              others = λ j l no. refl;
            }
      ]
    where
      chunk : ℕ
      chunk = closest_chunk_size (length xs + 1) chunk_size

      next : add32 b.size 1 ≡ length xs + 1
      next = omega (arith, o.size)

      fits : b.size ≤ b.real_size
      fits = omega (arith, o.size, length-le-real h b.buf b.real_size xs o.memory)

  -- Where a larger block is needed and refused, and its size in whole chunks fits 32 bits, `push` fails
  -- and changes nothing.
  pub push-refused :
      (x : A) (h : Heap) (b : HeapBuffer A)
      → ((n : ℕ) → granted h n ≡ false)
      → b.size < 2 ^ 32 - 17
      → b.real_size ≤ b.size
      → push granted width alignment x h b ≡ ok (false, b, h)
  unfolding push append allocate
  push-refused x h b never lt full =
      let next : add32 b.size 1 ≡ b.size + 1 = omega arith in
      let bounds = closest_chunk_size_bounds (b.size + 1) (omega arith) in
      rw (
        next,
        lt→ltb b.real_size (b.size + 1) (omega arith),
        lt→ltb 0 (closest_chunk_size (b.size + 1) chunk_size) (omega (arith, bounds.0)),
        never (mul32 (closest_chunk_size (b.size + 1) chunk_size) width + alignment),
        ◌>>=◌,
      )
