-- ===== src/Types/HandleBuffer/Link.antt =====
-- The free list that `resize` makes.
use tklb.Base.{
  ℕ, zero, suc, ◌+◌, ◌-◌, ◌<◌, ◌≡◌, refl, ap, none, some, List, [], ◌∷◌, length, get_elem?, take,
  replicate, ◌==◌, if◌then◌else◌, ok, arith, length-append, length-take, length-replicate,
}
use tklb.Types.HandleBuffer.{Element, resized, link, close, mask_index}

-- The link of slot `i` in a list of `n` free slots in order.
abbrev pub link_of : ℕ → ℕ → ℕ
link_of n i = if i + 1 == n then mask_index else i + 1

module _ {A : Type 0} where
  abbrev pub zeroed : Element A
  zeroed = record { next = 0; value = none }

  pub length-resized : (es : List (Element A)) (n : ℕ) → length (resized es n) ≡ n
  unfolding resized
  length-resized es n = omega (
    arith,
    length-append (take n es) (replicate (n - length es) zeroed),
    length-take n es,
    length-replicate (n - length es) zeroed,
  )

  pub length-link : (i : ℕ) (es : List (Element A)) → length (link i es) ≡ length es
  unfolding link
  length-link i [] = refl
  length-link i (e ∷ es) = ap suc (length-link (i + 1) es)

  pub get_elem?-link :
      (es : List (Element A)) (i j : ℕ)
      → j < length es
      → (e : Element A) × (get_elem? (link i es) j ≡ some e) × (e.next ≡ i + j + 1)
  unfolding link
  get_elem?-link [] i j h = elim h [ ]
  get_elem?-link (e ∷ es) i zero h = (record e { next = i + 1 }, refl, omega arith)
  get_elem?-link (e ∷ es) i (suc j) h =
      let (f, p, q) = get_elem?-link es (i + 1) j (omega arith) in (f, p, omega arith)

  -- Closing the list changes the last link only.
  pub record Closed (es es' : List (Element A)) : Type 0 where
    pub size : length es' ≡ length es
    pub links :
        (j : ℕ) (e : Element A)
        → get_elem? es j ≡ some e
        → (f : Element A) × (get_elem? es' j ≡ some f)
          × (f.next ≡ (if j + 1 == length es then mask_index else e.next))

  pub close-Closed :
      (es : List (Element A))
      → 0 < length es
      → (es' : List (Element A)) × (close es ≡ ok es') × Closed es es'
  unfolding close
  close-Closed [] h = elim h [ ]
  close-Closed (e ∷ []) h = (
    record e { next = mask_index } ∷ [],
    refl,
    record { size = refl; links = λ j g p. only j g p },
  )
    where
      only :
          (j : ℕ) (g : Element A)
          → get_elem? (e ∷ []) j ≡ some g
          → (f : Element A) × (get_elem? (record e { next = mask_index } ∷ []) j ≡ some f)
            × (f.next ≡ (if j + 1 == 1 then mask_index else g.next))
      only zero g p = (record e { next = mask_index }, refl, refl)
      only (suc j) g p = absurd (cc)
  close-Closed (e ∷ f ∷ es) h =
      let (rest, p, c) = close-Closed (f ∷ es) (omega arith) in
      (e ∷ rest, rw p, record { size = ap suc c.size; links = λ j g q. longer rest c j g q })
    where
      longer :
          (rest : List (Element A)) (c : Closed (f ∷ es) rest) (j : ℕ) (g : Element A)
          → get_elem? (e ∷ f ∷ es) j ≡ some g
          → (g' : Element A) × (get_elem? (e ∷ rest) j ≡ some g')
            × (g'.next ≡ (if j + 1 == length (e ∷ f ∷ es) then mask_index else g.next))
      longer rest c zero g q = (e, refl, ground arith)
      longer rest c (suc j) g q = let (g', p, r) = c.links j g q in (g', p, ground (arith, r))
