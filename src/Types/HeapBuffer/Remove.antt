-- ===== src/Types/HeapBuffer/Remove.antt =====
-- `remove(index)`, which moves the last object into the gap.
use tklb.Base.{
  ℕ, zero, suc, ◌+◌, ◌-◌, ◌≤◌, ◌≡◌, refl, ap, sym, ◌∙◌, Bool, true, false, Option, none, some, List,
  [], ◌∷◌, ◌++◌, length, ltb, ◌==◌, if◌then◌else◌, Run, ok, arith, length-append, append-nil, subst,
  le→leb, le→ltb, lt→ltb, ltb→lt, ltb→le, ==→eq, ==→ne, Bool-cases, inl, inr,
}
use tklb.Types.HeapBuffer.{Heap, Memory, HeapBuffer, remove_at, remove_pointed, remove_pointed_from}
use tklb.Types.HeapBuffer.Owned.{Holds, objects, length-objects}
use tklb.Types.HeapBuffer.Cut.{buffer_of}
use tklb.Types.HeapBuffer.Gap.{fill_gap, holds_gap, last_gap, holds_last}

module _ {A : Type 0} where
  -- What `remove` at an index leaves.
  pub record Removed (h : Heap) (b : HeapBuffer A) (ys : List A) (r : Run (Bool × HeapBuffer A))
      : Type 0 where
    pub buffer : HeapBuffer A
    pub run : r ≡ ok (true, buffer)
    pub holds : Holds h buffer ys
    pub real_size : buffer.real_size ≡ b.real_size

  remove_inner :
      (h : Heap) (buf : Option (Memory A)) (size real : ℕ) (us vs : List A) (y z : A)
      → Holds h (buffer_of buf size real) (us ++ y ∷ (vs ++ z ∷ []))
      → Removed h
          (buffer_of buf size real)
          (us ++ z ∷ vs)
          (remove_at (buffer_of buf size real) (length us))
  remove_inner h none size real us vs y z o =
      absurd (let e = ap length o.memory.1 in omega (arith, length-append us (y ∷ (vs ++ z ∷ []))))
  remove_inner h (some m) size real us vs y z o =
      let (spare, e, f) = holds_gap h m real us vs y z o.memory in
      let n : size ≡ length us + (1 + length vs) + 1 =
        o.size ∙ omega (arith, length-append us (y ∷ (vs ++ z ∷ [])), length-append vs (z ∷ [])) in
      record {
        buffer =
            buffer_of
              (some (record m { cells = objects us ++ some z ∷ (objects vs ++ some z ∷ spare) }))
              (size - 1) real;
        run =
            ap
              (λ cells.
                remove_at (buffer_of (some (record m { cells = cells })) size real) (length us))
              e
            ∙ rw (n, sym (length-objects us), sym (length-objects vs))
                (fill_gap m.name real (objects us) (objects vs) spare y z);
        holds = record { size = omega (arith, length-append us (z ∷ vs)); memory = f };
        real_size = refl;
      }

  remove_end :
      (h : Heap) (buf : Option (Memory A)) (size real : ℕ) (us : List A) (y : A)
      → Holds h (buffer_of buf size real) (us ++ y ∷ [])
      → Removed h (buffer_of buf size real) us (remove_at (buffer_of buf size real) (length us))
  remove_end h none size real us y o =
      absurd (let e = ap length o.memory.1 in omega (arith, length-append us (y ∷ [])))
  remove_end h (some m) size real us y o =
      let (spare, e, f) = holds_last h m real us y o.memory in
      let n : size ≡ length us + 1 = o.size ∙ omega (arith, length-append us (y ∷ [])) in
      record {
        buffer =
            buffer_of (some (record m { cells = objects us ++ none ∷ spare })) (length us) real;
        run =
            ap
              (λ cells.
                remove_at (buffer_of (some (record m { cells = cells })) size real) (length us))
              e
            ∙ rw (n, sym (length-objects us)) (last_gap m.name real (objects us) spare y);
        holds = record { size = refl; memory = f };
        real_size = refl;
      }

  remove_at-outside : (b : HeapBuffer A) (i : ℕ) → b.size ≤ i → remove_at b i ≡ ok (false, b)
  unfolding remove_at
  remove_at-outside b i le = rw (le→leb b.size i le)

  abbrev last_of : A → List A → A
  last_of v [] = v
  last_of v (w ∷ ws) = last_of w ws

  abbrev init_of : A → List A → List A
  init_of v [] = []
  init_of v (w ∷ ws) = v ∷ init_of w ws

  init-last : (v : A) (vs : List A) → v ∷ vs ≡ init_of v vs ++ last_of v vs ∷ []
  init-last v [] = refl
  init-last v (w ∷ ws) = ap (λ t. v ∷ t) (init-last w ws)

  -- The objects behind a gap, the last of which moves into it.
  abbrev pub last_first : List A → List A
  last_first [] = []
  last_first (v ∷ vs) = last_of v vs ∷ init_of v vs

  -- `remove` at the index of an object takes it out, and the last of the objects behind it, if there
  -- are any, moves into the gap.
  pub remove_at-Removed :
      (h : Heap) (b : HeapBuffer A) (us : List A) (y : A) (rest : List A)
      → Holds h b (us ++ y ∷ rest)
      → Removed h b (us ++ last_first rest) (remove_at b (length us))
  remove_at-Removed h b us y [] o = rw append-nil (remove_end h b.buf b.size b.real_size us y o)
  remove_at-Removed h b us y (v ∷ vs) o =
      remove_inner h b.buf b.size b.real_size us (init_of v vs) y (last_of v vs)
        (subst (λ t. Holds h b (us ++ y ∷ t)) (init-last v vs) o)

  remove_pointed_from-remove_at :
      (address n i : ℕ) (b : HeapBuffer A)
      → i ≤ address
      → remove_pointed_from address n i b
        ≡ (if ltb address (i + n) then remove_at b address else ok (false, b))
  unfolding remove_pointed_from
  remove_pointed_from-remove_at address zero i b le = rw (le→ltb address (i + 0) (omega arith))
  remove_pointed_from-remove_at address (suc n) i b le = elim (Bool-cases (i == address)) [
    | inl here ↦
        let e : i ≡ address = ==→eq i address here in
        rw (here, lt→ltb address (i + suc n) (omega arith)) (ap (remove_at b) e)
    | inr on ↦
        let ne = ==→ne i address on in
        rw (on, shift i n) (remove_pointed_from-remove_at address n (i + 1) b (omega arith))
  ]
    where
      shift : (i n : ℕ) → i + suc n ≡ i + 1 + n
      shift i n = omega arith

  -- Removing by address is removing by index, also where the address is not one of the buffer.
  pub remove_pointed-remove_at :
      (address : ℕ) (b : HeapBuffer A) → remove_pointed address b ≡ remove_at b address
  unfolding remove_pointed
  remove_pointed-remove_at address b =
      remove_pointed_from-remove_at address b.size 0 b (omega arith)
      ∙ elim (Bool-cases (ltb address b.size)) [
        | inl inside ↦
            rw (lt→ltb address (0 + b.size) (omega (arith, ltb→lt address b.size inside))) refl
        | inr outside ↦
            let le = ltb→le address b.size outside in
            rw (le→ltb address (0 + b.size) (omega arith)) (sym (remove_at-outside b address le))
      ]
