-- ===== src/Types/HeapBuffer/Chunks.antt =====
-- The sizes that a `HeapBuffer` allocates, and where an aligned one starts.
use tklb.Base.{max, ℕ, ◌+◌, ◌-◌, ◌*◌, ◌/◌, ◌%◌, ◌^◌, ◌≤◌, ◌<◌, ◌≡◌, arith, ap, sym, ◌∙◌}
use native.Mathlib.Nat.{
  add-mul, one-mul, div-le_self, div-add-mod', mod-lt, mod-le, add-mod_right, mul-mod_left,
  mul_assoc,
}
use tklb.Types.HeapBuffer.{closest_chunk_size, aligned_address, chunk_size}

-- Below 2^32 - 16 the size in whole chunks of 16 is a multiple of 16 that holds the size asked for and
-- less than one chunk more.
pub closest_chunk_size_bounds :
    (size : ℕ)
    → size < 2 ^ 32 - 16
    → (size ≤ closest_chunk_size size chunk_size)
      × (closest_chunk_size size chunk_size < size + 16)
      × (closest_chunk_size size chunk_size % 16 ≡ 0)
unfolding closest_chunk_size
closest_chunk_size_bounds size h = ground arith

-- The largest sizes wrap round to 0: the buffer allocates nothing for them.
pub closest_chunk_size_wraps :
    (size : ℕ) → 2 ^ 32 - 16 < size → size < 2 ^ 32 → closest_chunk_size size chunk_size ≡ 0
unfolding closest_chunk_size
closest_chunk_size_wraps size lo hi = ground arith

floor_lem : (n m : ℕ) → n - n % m ≡ n / m * m
floor_lem n m = omega (arith, div-add-mod' n m)

-- The remainder of a multiple of 8 by a multiple of 8 is one.
mod-mod_eight : (n m : ℕ) → n % 8 ≡ 0 → m % 8 ≡ 0 → n % m % 8 ≡ 0
mod-mod_eight n m a b =
    let k : m ≡ m / 8 * 8 = omega arith in
    let q : n / m * m ≡ n / m * (m / 8) * 8 =
      ap (λ t. n / m * t) k ∙ sym (mul_assoc (n / m) (m / 8) 8) in
    omega (arith, div-add-mod' n m, q)

-- The same for chunks of any size; 0 counts as 1.
pub closest_chunk_size-stride :
    (size stride : ℕ)
    → size + stride < 2 ^ 32
    → (size ≤ closest_chunk_size size stride)
      × (closest_chunk_size size stride < size + max stride 1)
unfolding closest_chunk_size
closest_chunk_size-stride size stride h =
    let c = max stride 1 in
    let parts = div-add-mod' size c in
    let whole : (size / c + 1) * c ≡ size / c * c + c =
      add-mul (size / c) 1 c ∙ ap (λ n. size / c * c + n) (one-mul c) in
    let rest : size % c < c = mod-lt size (omega arith) in
    let quotient : size / c ≤ size = div-le_self size c in
    ground (arith, parts, whole, rest, quotient)

-- From a pointer that is a multiple of 8, with an alignment that is one too, the aligned address is a
-- multiple of the alignment above the pointer, the gap before it has room for the original pointer,
-- and the object bytes behind it lie inside the allocation.
pub aligned_address_bounds :
    (alignment pointer bytes : ℕ)
    → 0 < alignment
    → pointer % 8 ≡ 0
    → alignment % 8 ≡ 0
    → let a = aligned_address alignment pointer in
      (a % alignment ≡ 0) × (pointer + 8 ≤ a) × (a + bytes ≤ pointer + (bytes + alignment))
unfolding aligned_address
aligned_address_bounds alignment pointer bytes pos a b =
    let lt = mod-lt pointer pos in
    let le = mod-le pointer alignment in
    (
      add-mod_right (pointer - pointer % alignment) alignment
          ∙ ap (λ t. t % alignment) (floor_lem pointer alignment)
          ∙ mul-mod_left (pointer / alignment) alignment,
      omega (arith, mod-mod_eight pointer alignment a b),
      omega arith,
    )
