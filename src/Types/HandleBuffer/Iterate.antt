-- ===== src/Types/HandleBuffer/Iterate.antt =====
-- What `iterate` visits.
use tklb.Base.{
  ℕ, zero, suc, ◌+◌, ◌-◌, ◌^◌, ◌≤◌, ◌<◌, ◌≡◌, ◌≢◌, refl, Option, List, [], ◌∷◌, length, take, sub32,
  arith, ne→==,
}
use tklb.Types.HandleBuffer.{
  Element, HandleBuffer, visit, iterate, generation_part, mask_generation,
}

module _ {A : Type 0} where
  -- The handle of each slot, in order, with the object in it, if there is one.
  abbrev pub slots : ℕ → List (Element A) → List (ℕ × Option A)
  slots i [] = []
  slots i (e ∷ es) = (i + generation_part e.next, e.value) ∷ slots (i + 1) es

  -- No slot has the generation that marks it as unused.
  abbrev pub NoneUnused : List (Element A) → Type 0
  NoneUnused [] = Unit {0}
  NoneUnused (e ∷ es) = (generation_part e.next ≢ mask_generation) × NoneUnused es

  visit_lem : (k i : ℕ) (es : List (Element A)) → NoneUnused es → visit k i es ≡ take k (slots i es)
  unfolding visit
  visit_lem zero i [] h = refl
  visit_lem (suc k) i [] h = refl
  visit_lem zero i (e ∷ es) h = refl
  visit_lem (suc k) i (e ∷ es) h =
      let back : suc k - 1 ≡ k = omega arith in
      rw (
        ne→== (generation_part e.next) mask_generation h.0,
        ne→== (suc k) 0 (omega arith),
        back,
        visit_lem k (i + 1) es h.1,
      )

  -- `iterate` visits the first slots, as many as there are objects, whether these slots hold objects
  -- or not: a slot is passed over only if its generation is the last one.
  pub iterate-take :
      (b : HandleBuffer A)
      → NoneUnused b.elements
      → b.free ≤ length b.elements
      → length b.elements < 2 ^ 32
      → iterate b ≡ take (length b.elements - b.free) (slots 0 b.elements)
  unfolding iterate
  iterate-take b h le lt =
      let e : sub32 (length b.elements) b.free ≡ length b.elements - b.free = omega arith in
      rw e (visit_lem (length b.elements - b.free) 0 b.elements h)
