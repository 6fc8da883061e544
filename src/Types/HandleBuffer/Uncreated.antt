-- ===== src/Types/HandleBuffer/Uncreated.antt =====
-- What `at` says of slots in which nothing has been created.
use tklb.Base.{
  ℕ, zero, suc, ◌+◌, ◌-◌, ◌<◌, ◌≡◌, refl, none, some, List, [], ◌∷◌, get_elem?, replicate, Run, ok,
  fault, ◌>>=◌, arith,
}
use tklb.Types.HandleBuffer.{
  Element, HandleBuffer, at, resize, resized, link, close, empty, mask_index,
}
use tklb.Types.HandleBuffer.Fresh.{resize-Fresh, at-Fresh}
use tklb.Types.HandleBuffer.Link.{zeroed}

module _ (A : Type 0) where
  -- No element holds an object.
  abbrev Raw : List (Element A) → Type 0
  Raw [] = Unit {0}
  Raw (e ∷ es) = (e.value ≡ none) × Raw es

  replicate-Raw : (n : ℕ) → Raw (replicate n (zeroed {A = A}))
  replicate-Raw zero = tt
  replicate-Raw (suc n) = (refl, replicate-Raw n)

  link-Raw : (i : ℕ) (es : List (Element A)) → Raw es → Raw (link i es)
  unfolding link
  link-Raw i [] h = tt
  link-Raw i (e ∷ es) h = (h.0, link-Raw (i + 1) es h.1)

  get_elem?-Raw :
      (es : List (Element A)) (i : ℕ) (e : Element A)
      → Raw es
      → get_elem? es i ≡ some e
      → e.value ≡ none
  get_elem?-Raw [] i e h p = absurd (cc)
  get_elem?-Raw (f ∷ es) zero e h p = let q : f ≡ e = cc in rw (← q) h.0
  get_elem?-Raw (f ∷ es) (suc i) e h p = get_elem?-Raw es i e h.1 p

  close-Raw : (es es' : List (Element A)) → Raw es → close es ≡ ok es' → Raw es'
  unfolding close
  close-Raw [] es' h p = absurd (cc)
  close-Raw (e ∷ []) es' h p =
      let q : record e { next = mask_index } ∷ [] ≡ es' = cc in rw (← q) (h.0, tt)
  close-Raw (e ∷ f ∷ es) es' h p =
      split (close (f ∷ es)) refl (λ rest q. close-Raw (f ∷ es) rest h.1 q)
    where
      split :
          (r : Run (List (Element A)))
          → close (f ∷ es) ≡ r
          → ((rest : List (Element A)) → close (f ∷ es) ≡ ok rest → Raw rest)
          → Raw es'
      split fault q tail = absurd (cc (rw (q, ◌>>=◌) at p))
      split (ok rest) q tail =
          let back : e ∷ rest ≡ es' = cc (rw (q, ◌>>=◌) at p) in rw (← back) (h.0, tail rest q)

  resized-Raw : (n : ℕ) → Raw (resized {A = A} [] n)
  unfolding resized
  resized-Raw zero = replicate-Raw (zero - 0)
  resized-Raw (suc n) = replicate-Raw (suc n - 0)

  resize-Raw : (n : ℕ) (b : HandleBuffer A) → resize empty n ≡ ok b → Raw b.elements
  unfolding resize empty
  resize-Raw n b p = split (close (link 0 (resized [] n))) refl
    where
      split : (r : Run (List (Element A))) → close (link 0 (resized [] n)) ≡ r → Raw b.elements
      split fault q = absurd (cc (rw (q, ◌>>=◌) at p))
      split (ok es) q =
          let same : es ≡ b.elements = cc (rw (q, ◌>>=◌) at p) in
          rw (← same)
            (close-Raw (link 0 (resized [] n)) es (link-Raw 0 (resized [] n) (resized-Raw n)) q)

  start-empty : (empty {A = A}).start ≡ 0
  unfolding empty
  start-empty = refl

  -- After a resize the handle of every slot passes `at`, although no object has been created and the
  -- slot's value is raw memory.
  pub at-resize_uncreated :
      (n i : ℕ)
      → i < n
      → n < mask_index
      → (b : HandleBuffer A) × (resize empty n ≡ ok b)
        × (at b i ≡ ok (some i))
        × ((e : Element A) × (get_elem? b.elements i ≡ some e) × (e.value ≡ none))
  at-resize_uncreated n i lt small =
      let (b, p, f) = resize-Fresh empty n start-empty (omega arith) small in
      let (e, q, r) = f.links i lt in
      (b, p, at-Fresh b n 0 f i lt, (e, q, get_elem?-Raw b.elements i e (resize-Raw n b p) q))
