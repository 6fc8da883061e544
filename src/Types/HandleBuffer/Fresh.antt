-- ===== src/Types/HandleBuffer/Fresh.antt =====
-- A buffer that has been resized and not yet removed from.
use tklb.Base.{
  ℕ, ◌+◌, ◌≤◌, ◌<◌, ◌≡◌, ◌≢◌, refl, sym, ◌∙◌, some, List, length, get_elem?, set, ◌==◌,
  if◌then◌else◌, ok, fault, ◌>>=◌, arith, length-set, get_elem?-set_self, get_elem?-set_ne,
  get_elem?_of_ge, ne→==, ℕ_discrete,
}
use tklb.Types.HandleBuffer.{
  Element, HandleBuffer, at, create, take_slot, resize, resized, link, mask_index, invalid_handle,
  index_part,
}
use tklb.Types.HandleBuffer.Link.{
  link_of, length-resized, length-link, get_elem?-link, Closed, close-Closed,
}

module _ {A : Type 0} where
  -- A buffer of `n` slots, of which the first `k` have been handed out.
  pub record Fresh (b : HandleBuffer A) (n k : ℕ) : Type 0 where
    pub size : length b.elements ≡ n
    pub at_most : k ≤ n
    pub small : n < mask_index
    pub start : b.start ≡ (if k == n then mask_index else k)
    pub free : b.free + k ≡ n
    pub links :
        (i : ℕ)
        → i < n
        → (e : Element A) × (get_elem? b.elements i ≡ some e) × (e.next ≡ link_of n i)

  -- Resizing a buffer whose list of free slots starts at slot 0 makes all `n` slots free, in order.
  pub resize-Fresh :
      (b : HandleBuffer A) (n : ℕ)
      → b.start ≡ 0
      → 0 < n
      → n < mask_index
      → (b' : HandleBuffer A) × (resize b n ≡ ok b') × Fresh b' n 0
  unfolding resize
  resize-Fresh b n e pos small =
      let l = link 0 (resized b.elements n) in
      let len : length l ≡ n = length-link 0 (resized b.elements n) ∙ length-resized b.elements n in
      let (es, p, c) = close-Closed l (omega (arith, len)) in
      (record b { elements = es; free = n }, rw p, fresh es c)
    where
      fresh :
          (es : List (Element A))
          → Closed (link 0 (resized b.elements n)) es
          → Fresh (record b { elements = es; free = n }) n 0
      fresh es c =
          let len : length (link 0 (resized b.elements n)) ≡ n =
            length-link 0 (resized b.elements n) ∙ length-resized b.elements n in
          record {
            size = c.size ∙ len;
            at_most = omega arith;
            small = small;
            start = ground (arith, e);
            free = omega arith;
            links = λ i lt.
                let (g, p, q) =
                  get_elem?-link (resized b.elements n) 0 i
                    (omega (arith, length-resized b.elements n)) in
                let (g', p', q') = c.links i g p in (g', p', ground (arith, q, q', len));
          }

  module _ (b : HandleBuffer A) (n k : ℕ) (fresh : Fresh b n k) where
    -- A handle for a slot of a fresh buffer passes `at`, also if nothing has been created there.
    pub at-Fresh : (i : ℕ) → i < n → at b i ≡ ok (some i)
    unfolding at
    at-Fresh i lt =
        let (e, p, q) = fresh.links i lt in ground (arith, p, q, fresh.small, fresh.size)

    -- One `create` hands out the next slot.
    pub record Next (x : A) (r : ℕ × HandleBuffer A) : Type 0 where
      pub handle : r.0 ≡ k
      pub rest : Fresh r.1 n (k + 1)
      pub value : (e : Element A) × (get_elem? r.1.elements k ≡ some e) × (e.value ≡ some x)
      pub other : (i : ℕ) → i ≢ k → get_elem? r.1.elements i ≡ get_elem? b.elements i

    module _ (x : A) (lt : k < n) (e : Element A) (p : get_elem? b.elements k ≡ some e)
        (q : e.next ≡ link_of n k) where
      at_k : b.start ≡ k
      at_k = ground (arith, fresh.start)

      set_k :
          set b.elements b.start (record e { value = some x })
          ≡ set b.elements k (record e { value = some x })
      set_k = rw at_k

      other_slots :
          (i : ℕ) → i ≢ k → get_elem? (take_slot x b e).1.elements i ≡ get_elem? b.elements i
      unfolding take_slot
      other_slots i ne =
          rw set_k (get_elem?-set_ne b.elements k i (record e { value = some x }) (λ r. ne (sym r)))

      own_slot : get_elem? (take_slot x b e).1.elements k ≡ some (record e { value = some x })
      unfolding take_slot
      own_slot = rw set_k (
          get_elem?-set_self b.elements k (record e { value = some x }) (omega (arith, fresh.size)))

      links' :
          (i : ℕ)
          → i < n
          → (f : Element A) × (get_elem? (take_slot x b e).1.elements i ≡ some f)
            × (f.next ≡ link_of n i)
      links' i less = elim (ℕ_discrete i k) [
        | yes r ↦ (record e { value = some x }, rw r own_slot, rw r q)
        | no ne ↦ let (f, u, w) = fresh.links i less in (f, other_slots i ne ∙ u, w)
      ]

      size' : length (take_slot x b e).1.elements ≡ n
      unfolding take_slot
      size' = length-set b.elements b.start (record e { value = some x }) ∙ fresh.size

      start' : (take_slot x b e).1.start ≡ (if k + 1 == n then mask_index else k + 1)
      unfolding take_slot
      start' = ground (arith, q, fresh.small)

      free' : (take_slot x b e).1.free + (k + 1) ≡ n
      unfolding take_slot
      free' = omega (arith, fresh.free, fresh.small)

      taken-Fresh : Fresh (take_slot x b e).1 n (k + 1)
      taken-Fresh = record {
        size = size';
        at_most = omega arith;
        small = fresh.small;
        start = start';
        free = free';
        links = links';
      }

      -- The first slot of the list has generation 0.
      handle' : (take_slot x b e).0 ≡ k
      unfolding take_slot
      handle' = ground (arith, q, fresh.small, at_k)

      create-take_slot : create x b ≡ ok (take_slot x b e)
      unfolding create
      create-take_slot =
          rw (ne→== b.start mask_index (omega (arith, at_k, fresh.small)), found, ◌>>=◌)
        where
          found : get_elem? b.elements b.start ≡ some e
          found = rw at_k p

    pub create-Next : (x : A) → k < n → (r : ℕ × HandleBuffer A) × (create x b ≡ ok r) × Next x r
    create-Next x lt =
        let (e, p, q) = fresh.links k lt in
        (
          take_slot x b e,
          create-take_slot x lt e p q,
          record {
            handle = handle' x lt e p q;
            rest = taken-Fresh x lt e p q;
            value = (record e { value = some x }, own_slot x lt e p q, refl);
            other = other_slots x lt e p q;
          },
        )

  -- A handle whose index is the size of the buffer passes the test of the index: `at` then reads
  -- behind the last element.
  pub at-size_fault :
      (b : HandleBuffer A) (handle : ℕ)
      → index_part handle ≡ length b.elements
      → handle ≢ invalid_handle
      → at b handle ≡ fault
  unfolding at
  at-size_fault b handle e ne =
      ground (arith, e, ne, get_elem?_of_ge b.elements (index_part handle))
