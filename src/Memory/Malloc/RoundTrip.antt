-- ===== src/Memory/Malloc/RoundTrip.antt =====
-- An allocation with checks is given back as it was made.
use tklb.Base.{ℕ, ◌+◌, ◌^◌, ◌<◌, ◌≡◌, refl, some, ok, add64, arith}
use native.Mathlib.Nat.{mod-eq_of_lt}
use tklb.Memory.MemoryCheck.{MemoryBytes, construct, size_needed}
use tklb.Memory.MemoryCheck.Check.{Kept, check-construct}
use tklb.Memory.Malloc.{CLibrary, checked_malloc, checked_free}

module _ (c : CLibrary) where
  checked_malloc-construct :
      (bytes p : ℕ) (h h' : c.Heap) (mem : MemoryBytes)
      → bytes + size_needed < 2 ^ 64
      → c.malloc (bytes + size_needed) h ≡ (some p, h')
      → checked_malloc c bytes h mem ≡ ok ((construct p bytes mem).0, h', (construct p bytes mem).1)
  unfolding checked_malloc
  checked_malloc-construct bytes p h h' mem small e =
      let fits : add64 bytes size_needed ≡ bytes + size_needed = mod-eq_of_lt small in
      rw (fits, e) refl

  -- Where the C library grants a request and its size with the two blocks fits a word, `tklb_malloc` gives
  -- a pointer with which `tklb_free` frees the allocation that the C library has made, whatever was written to
  -- the usable space in between.
  pub checked_free-checked_malloc :
      (bytes p : ℕ) (h h' h'' : c.Heap) (mem mem' : MemoryBytes)
      → bytes + size_needed < 2 ^ 64
      → c.malloc (bytes + size_needed) h ≡ (some p, h')
      → Kept p bytes mem mem'
      → (checked_malloc c bytes h mem
          ≡ ok ((construct p bytes mem).0, h', (construct p bytes mem).1))
        × (checked_free c (some (construct p bytes mem).0) h'' mem' ≡ c.free p h'')
  unfolding checked_free
  checked_free-checked_malloc bytes p h h' h'' mem mem' small e kept = (
    checked_malloc-construct bytes p h h' mem small e,
    rw (check-construct p bytes mem mem' (omega arith) kept) refl,
  )
