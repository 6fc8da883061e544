-- ===== src/Memory/Malloc.antt =====
-- src/memory/TMemory.hpp: `tklb_malloc` and `tklb_free` in the build with TKLB_MEMORY_CHECK, and
-- src/memory/TAllocator.hpp: `DefaultAllocator`. `malloc` and `free` of the C library are a parameter.
pub mod RoundTrip
pub mod Sizes
mod Tests
use tklb.Base.{
  ℕ, ◌*◌, ◌/◌, ◌%◌, ◌-◌, ◌^◌, Bool, true, false, Option, none, some, ltb, ◌==◌, if◌then◌else◌, Run,
  ok, ◌>>=◌, read, add64,
}
use tklb.Memory.MemoryCheck.{MemoryBytes, construct, check, size_needed}

-- `malloc` and `free` on the allocations of the library.
pub record CLibrary : Type 1 where
  pub Heap : Type 0
  pub malloc : ℕ → Heap → Option ℕ × Heap
  pub free : ℕ → Heap → Heap

module _ (c : CLibrary) where
  -- `tklb_malloc` gives a pointer, the allocations and the bytes of the memory.
  pub checked_malloc : ℕ → c.Heap → MemoryBytes → Run (ℕ × c.Heap × MemoryBytes)
  checked_malloc bytes heap mem =
      let allocation = c.malloc (add64 bytes size_needed) heap in
      read allocation.0 >>= λ p.
      let constructed = construct p bytes mem in ok (constructed.0, allocation.1, constructed.1)

  -- `tklb_free`; `none` is the null pointer.
  pub checked_free : Option ℕ → c.Heap → MemoryBytes → c.Heap
  checked_free none heap mem = heap
  checked_free (some ptr) heap mem =
      let result = check ptr mem in if result.underrun then heap else c.free result.ptr heap

  -- `AddressableElements` for elements of this size.
  abbrev pub addressable_elements : ℕ → ℕ
  addressable_elements element_size = (2 ^ 64 - 1) / element_size

  -- `DefaultAllocator::allocate`, in the build with TKLB_RELEASE or not.
  pub allocate_elements : Bool → ℕ → ℕ → c.Heap → Option ℕ × c.Heap
  allocate_elements true element_size n heap = c.malloc ((n * element_size) % 2 ^ 64) heap
  allocate_elements false element_size n heap =
      if ltb (addressable_elements element_size) n
      then (none, heap)
      else c.malloc ((n * element_size) % 2 ^ 64) heap
