-- ===== src/Types/HeapBuffer/Cut.antt =====
-- Constructing and destroying objects at the end.
use tklb.Base.{
  ℕ, ◌+◌, ◌-◌, ◌≤◌, ◌≡◌, refl, ap, ◌∙◌, Bool, true, false, not, ◌&&◌, Option, none, some, List, [],
  ◌∷◌, ◌++◌, map, length, take, replicate, ltb, if◌then◌else◌, Run, ok, ◌>>=◌, arith, length-append,
  length-take, append-nil, take_of_ge, ◌⊎◌, inl, inr, Bool-cases, ltb→lt, ltb→le, ne→==,
}
use tklb.Types.HeapBuffer.{
  Heap, Memory, HeapBuffer, destroy, construct, on_cells, put_cells, is_null, injected, fill,
}
use tklb.Types.HeapBuffer.Owned.{
  Filled, HoldsIn, put_cells-Filled, put_cells-clear, length-objects, objects,
}
use tklb.Types.HeapBuffer.Allocate.{owns}

module _ {A : Type 0} where
  pub length-le-real :
      (h : Heap) (buf : Option (Memory A)) (real : ℕ) (xs : List A)
      → HoldsIn h buf real xs
      → length xs ≤ real
  length-le-real h none real xs o = let e = ap length o.1 in omega arith
  length-le-real h (some m) real xs o =
      let (spare, e) = o.4 in
      omega (arith, ap length e, length-append (objects xs) spare, length-objects xs, o.1)

  abbrev pub buffer_of : Option (Memory A) → ℕ → ℕ → HeapBuffer A
  buffer_of buf size real = record { buf = buf; size = size; real_size = real }

  -- The buffer differs from `b` in its cells only, and they hold `ys`.
  pub record Rewritten (h : Heap) (b : HeapBuffer A) (ys : List A) (r : Run (HeapBuffer A))
      : Type 0 where
    pub buffer : HeapBuffer A
    pub run : r ≡ ok buffer
    pub size : buffer.size ≡ b.size
    pub real_size : buffer.real_size ≡ b.real_size
    pub holds : HoldsIn h buffer.buf b.real_size ys
    pub same_block : (j : ℕ) → owns buffer.buf j ≡ owns b.buf j

  rewrite :
      (h : Heap) (m : Memory A) (size real : ℕ) (xs ys : List A) (cells : List (Option A))
      (f : List (Option A) → Run (List (Option A)))
      → HoldsIn h (some m) real xs
      → f m.cells ≡ ok cells
      → length cells ≡ length m.cells
      → Filled cells ys
      → Rewritten h
          (record { buf = some m; size = size; real_size = real })
          ys
          (on_cells (some m) f >>= λ buf. ok (record { buf = buf; size = size; real_size = real }))
  unfolding on_cells
  rewrite h m size real xs ys cells f o e len fill = record {
    buffer = record { buf = some (record m { cells = cells }); size = size; real_size = real };
    run = rw e;
    size = refl;
    real_size = refl;
    holds = (o.0, len ∙ o.1, o.2, o.3, fill);
    same_block = λ j. refl;
  }

  pub construct-Rewritten :
      (h : Heap) (buf : Option (Memory A)) (size real : ℕ) (xs vs : List A)
      → HoldsIn h buf real xs
      → length xs + length vs ≤ real
      → let b = buffer_of buf size real in Rewritten h b (xs ++ vs) (construct b (length xs) vs)
  unfolding construct
  construct-Rewritten h buf size real xs [] o room = record {
    buffer = record { buf = buf; size = size; real_size = real };
    run = refl;
    size = refl;
    real_size = refl;
    holds = rw append-nil o;
    same_block = λ j. refl;
  }
  construct-Rewritten h none size real xs (v ∷ vs) o room = absurd (omega arith)
  construct-Rewritten h (some m) size real xs (v ∷ vs) o room =
      let (cells, e, len, f) = put_cells-Filled m.cells xs (v ∷ vs) o.4 (omega (arith, o.1)) in
      rewrite h m size real xs (xs ++ v ∷ vs) cells
        (λ cells. put_cells cells (length xs) (map some (v ∷ vs))) o e len f

  destroy-Rewritten :
      (h : Heap) (m : Memory A) (size real : ℕ) (xs : List A) (n : ℕ)
      → HoldsIn h (some m) real xs
      → size ≡ length xs
      → n ≤ length xs
      → let b = buffer_of (some m) size real in Rewritten h b (take n xs) (destroy b n size)
  unfolding destroy
  destroy-Rewritten h m size real xs n o e le =
      let (cells, p, len, f) =
        put_cells-clear m.cells xs n o.4 le
          (omega (arith, o.1, length-le-real h (some m) real xs o)) in
      rw e (
        rewrite h m (length xs) real xs (take n xs) cells
          (λ cells. put_cells cells n (replicate (length xs - n) none)) o p len f)

  -- The first step of `resize`.
  abbrev pub cut : HeapBuffer A → ℕ → Run (HeapBuffer A)
  cut b n =
      if ltb n b.size && not (is_null b.buf) && not (injected b) then destroy b n b.size else ok b

  pub cut-Rewritten :
      (h : Heap) (buf : Option (Memory A)) (size real : ℕ) (xs : List A) (n : ℕ)
      → HoldsIn h buf real xs
      → size ≡ length xs
      → let b = buffer_of buf size real in Rewritten h b (take n xs) (cut b n)
  unfolding is_null injected
  cut-Rewritten h none size real xs n o e = record {
    buffer = buffer_of none size real;
    run = null_run (ltb n size);
    size = refl;
    real_size = refl;
    holds = (o.0, ap (take n) o.1 ∙ take_of_ge n [] (omega arith));
    same_block = λ j. refl;
  }
    where
      null_run :
          (c : Bool)
          → (if (c && false) && not (injected (buffer_of none size real))
              then destroy (buffer_of none size real) n size
              else ok (buffer_of none size real))
            ≡ ok (buffer_of none size real)
      null_run true = refl
      null_run false = refl
  cut-Rewritten h (some m) size real xs n o e = elim (Bool-cases (ltb n size)) [
    | inl less ↦
        let r = destroy-Rewritten h m size real xs n o e (omega (arith, ltb→lt n size less)) in
        record {
          buffer = r.buffer;
          run = rw (less, ne→== real 0 (omega (arith, o.0))) r.run;
          size = r.size;
          real_size = r.real_size;
          holds = r.holds;
          same_block = r.same_block;
        }
    | inr more ↦ record {
      buffer = buffer_of (some m) size real;
      run = rw more;
      size = refl;
      real_size = refl;
      holds = rw (take_of_ge n xs (omega (arith, ltb→le n size more))) o;
      same_block = λ j. refl;
    }
  ]

-- `resize` cuts objects off, or all of them stay.
pub split_size :
    {A : Type 0} (n : ℕ) (xs : List A) (size : ℕ)
    → size ≡ length xs
    → ((n ≤ size) × (length (take n xs) ≡ n)) ⊎ ((length (take n xs) ≡ size) × (size ≤ n))
split_size n xs size e = elim (Bool-cases (ltb n size)) [
  | inl less ↦
      inl (omega (arith, ltb→lt n size less), omega (arith, length-take n xs, ltb→lt n size less))
  | inr more ↦ inr (omega (arith, length-take n xs, ltb→le n size more), ltb→le n size more)
]
