-- ===== src/Types/HandleBuffer.antt =====
-- src/types/THandleBuffer.hpp: `HandleBuffer`, slots addressed by handles that carry a generation.
-- The template arguments are the defaults: a handle has 32 bits, the upper 8 are the generation.
-- `x & MaskIndex` is `x % 2 ^ 24`, `x & MaskGeneration` is `x - x % 2 ^ 24`, and `|` joins an index
-- below `2 ^ 24` and a multiple of `2 ^ 24`, so it is a sum. Asserts are compiled out, and the array
-- of elements is allocated. A pointer to an element's value is the index of the element.
pub mod Link
pub mod Fresh
pub mod Fill
pub mod Uncreated
pub mod Remove
pub mod Iterate
mod Tests
use tklb.Base.{
  ℕ, zero, suc, ◌+◌, ◌-◌, ◌*◌, ◌/◌, ◌%◌, ◌^◌, Bool, true, false, Option, none, some, List, [], ◌∷◌,
  ◌++◌, length, get_elem?, set, take, replicate, ltb, ◌==◌, if◌then◌else◌, Run, ok, fault, ◌>>=◌,
  read, sub32,
}

abbrev pub mask_bits : ℕ
mask_bits = 24

abbrev pub mask_index : ℕ
mask_index = 2 ^ 24 - 1

abbrev pub mask_generation : ℕ
mask_generation = 2 ^ 32 - 2 ^ 24

abbrev pub invalid_handle : ℕ
invalid_handle = 2 ^ 32 - 1

abbrev pub index_part : ℕ → ℕ
index_part x = x % 2 ^ 24

abbrev pub generation_part : ℕ → ℕ
generation_part x = x - x % 2 ^ 24

-- `next` links the free slots and holds the generation; `value` is `none` while it holds no object.
pub record Element (A : Type 0) : Type 0 where
  pub next : ℕ
  pub value : Option A

pub record HandleBuffer (A : Type 0) : Type 0 where
  pub elements : List (Element A)
  pub start : ℕ
  pub free : ℕ

-- The generation that `remove` gives to a slot; it is compared with the unshifted mask.
pub next_generation : ℕ → ℕ
next_generation next =
    let generation = generation_part next / 2 ^ mask_bits + 1 in
    (if generation == mask_generation then 0 else generation) * 2 ^ mask_bits % 2 ^ 32

module _ {A : Type 0} where
  -- The constructor without arguments.
  pub empty : HandleBuffer A
  empty = record { elements = []; start = 0; free = 0 }

  pub size : HandleBuffer A → ℕ
  size b = length b.elements

  -- `mElements.resize(size)`: new elements are zeroed, old ones keep their bytes.
  pub resized : List (Element A) → ℕ → List (Element A)
  resized es n = take n es ++ replicate (n - length es) (record { next = 0; value = none })

  -- The loop that sets `mElements[i].next = i + 1`, from the index `i` on.
  pub link : ℕ → List (Element A) → List (Element A)
  link i [] = []
  link i (e ∷ es) = record e { next = i + 1 } ∷ link (i + 1) es

  -- `mElements.last().next = MaskIndex`, where there is a last element.
  pub close : List (Element A) → Run (List (Element A))
  close [] = fault
  close (e ∷ []) = ok (record e { next = mask_index } ∷ [])
  close (e ∷ f ∷ es) = do rest ← close (f ∷ es); ok (e ∷ rest)

  -- `mStart` is left as it is.
  pub resize : HandleBuffer A → ℕ → Run (HandleBuffer A)
  resize b n = do
    es ← close (link 0 (resized b.elements n))
    ok (record b { elements = es; free = n })

  -- The tests of `at` on the element that the handle's index names.
  pub checked : ℕ → Element A → Option ℕ
  checked handle e =
      if generation_part e.next == mask_generation
      then none
      else if generation_part handle == generation_part e.next
      then some (index_part handle)
      else none

  pub at : HandleBuffer A → ℕ → Run (Option ℕ)
  unfolding checked
  at b handle =
      if handle == invalid_handle
      then ok none
      else if ltb (length b.elements) (index_part handle)
      then ok none
      else read (get_elem? b.elements (index_part handle)) >>= λ e. ok (checked handle e)

  pub has : HandleBuffer A → ℕ → Run Bool
  has b handle = do p ← at b handle; ok (elim p [ none ↦ false | some _ ↦ true ])

  -- What `create` does with the first free slot; `fresh` is what the constructor of `T` makes.
  pub take_slot : A → HandleBuffer A → Element A → ℕ × HandleBuffer A
  take_slot fresh b e = (
    b.start + generation_part e.next,
    record {
      elements = set b.elements b.start (record e { value = some fresh });
      start = index_part e.next;
      free = sub32 b.free 1;
    },
  )

  pub create : A → HandleBuffer A → Run (ℕ × HandleBuffer A)
  unfolding take_slot
  create fresh b =
      if b.start == mask_index
      then ok (invalid_handle, b)
      else read (get_elem? b.elements b.start) >>= λ e. ok (take_slot fresh b e)

  -- What `remove` does with the slot that `at` has found.
  pub release : HandleBuffer A → ℕ → Run (Bool × HandleBuffer A)
  release b index = do
    e ← read (get_elem? b.elements index)
    ok (
      true,
      record {
        elements =
            set b.elements index (record { next = next_generation e.next + index; value = none });
        start = index;
        free = (b.free + 1) % 2 ^ 32;
      },
    )

  pub remove : HandleBuffer A → ℕ → Run (Bool × HandleBuffer A)
  remove b handle = do
    p ← at b handle
    elim p [ none ↦ ok (false, b) | some index ↦ release b index ]

  -- The loop of `iterate`, from the index `i` on: the handles and values that `func` is called with.
  pub visit : ℕ → ℕ → List (Element A) → List (ℕ × Option A)
  visit items_left i [] = []
  visit items_left i (e ∷ es) =
      let skip = visit items_left (i + 1) es in
      let call = (i + generation_part e.next, e.value) ∷ visit (items_left - 1) (i + 1) es in
      if items_left == 0
      then []
      else if generation_part e.next == mask_generation
      then skip
      else call

  pub iterate : HandleBuffer A → List (ℕ × Option A)
  iterate b = visit (sub32 (length b.elements) b.free) 0 b.elements
