-- ===== src/Memory/Malloc/Sizes.antt =====
-- The size that `DefaultAllocator` asks for.
use tklb.Base.{
  ℕ, ◌-◌, ◌*◌, ◌%◌, ◌^◌, ◌<◌, ◌≤◌, ◌≡◌, refl, false, none, ltb, ltb→lt, ltb→le, lt→ltb, le→ltb,
  if◌then◌else◌, Bool-cases, inl, inr, arith,
}
use native.Mathlib.Nat.{mod-eq_of_lt, div-lt_iff_lt-mul, le-div_iff_mul-le}
use tklb.Memory.Malloc.{CLibrary, addressable_elements, allocate_elements}

module _ (c : CLibrary) where
  -- Without TKLB_RELEASE a request for elements is refused where their size does not fit a word, and is
  -- otherwise one for exactly that size.
  pub allocate_elements_lem :
      (element_size n : ℕ) (h : c.Heap)
      → 0 < element_size
      → allocate_elements c false element_size n h
        ≡ (if ltb (n * element_size) (2 ^ 64) then c.malloc (n * element_size) h else (none, h))
  unfolding allocate_elements
  allocate_elements_lem element_size n h pos =
      elim (Bool-cases (ltb (addressable_elements c element_size) n)) [
        | inl large ↦
            let over : 2 ^ 64 - 1 < n * element_size =
              (div-lt_iff_lt-mul {k = element_size} {x = 2 ^ 64 - 1} {y = n} pos).0
                (ltb→lt (addressable_elements c element_size) n large) in
            rw (large, le→ltb (n * element_size) (2 ^ 64) (omega arith)) refl
        | inr fine ↦
            let under : n * element_size ≤ 2 ^ 64 - 1 =
              (le-div_iff_mul-le {k = element_size} {x = n} {y = 2 ^ 64 - 1} pos).0
                (ltb→le (addressable_elements c element_size) n fine) in
            rw (fine, lt→ltb (n * element_size) (2 ^ 64) (omega arith), word under) refl
      ]
    where
      word : {k : ℕ} → k ≤ 2 ^ 64 - 1 → k % 2 ^ 64 ≡ k
      word le = mod-eq_of_lt (omega arith)
