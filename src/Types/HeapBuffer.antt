-- ===== src/Types/HeapBuffer.antt =====
-- src/types/THeapBuffer.hpp: `HeapBuffer`, a growing array that owns its memory or borrows it.
-- A size is an `unsigned int` of 32 bits. A memory block has a name, by which the heap knows whether
-- it is allocated, and one cell for each element that it has room for, `none` where no object is.
-- The allocator is a parameter: whether it grants a number of bytes. Asserts are compiled out.
-- An argument of `push` is a value: one that refers into the buffer itself is not modelled.
pub mod Chunks
pub mod Owned
pub mod Allocate
pub mod Cut
pub mod Resize
pub mod Push
pub mod Gap
pub mod Remove
pub mod Find
pub mod Move
mod Tests
use tklb.Base.{
  ℕ, zero, suc, ◌+◌, ◌-◌, ◌*◌, ◌/◌, ◌%◌, ◌^◌, min, max, Bool, true, false, not, ◌&&◌, ◌||◌, Option,
  none, some, List, [], ◌∷◌, ◌++◌, map, length, get_elem?, set, take, drop, replicate, ltb, leb,
  ◌==◌, if◌then◌else◌, Run, ok, fault, ◌>>=◌, read, add32, sub32, mul32,
}

-- The blocks that are allocated; the next block gets the name `next`.
pub record Heap : Type 0 where
  pub next : ℕ
  pub live : ℕ → Bool

pub record Memory (A : Type 0) : Type 0 where
  pub name : ℕ
  pub cells : List (Option A)

-- `mBuf`, `mSize`, `mRealSize`.
pub record HeapBuffer (A : Type 0) : Type 0 where
  pub buf : Option (Memory A)
  pub size : ℕ
  pub real_size : ℕ

abbrev pub chunk_size : ℕ
chunk_size = 16

unfoldable pub closest_chunk_size : ℕ → ℕ → ℕ
closest_chunk_size size chunk =
    let chunk' = max chunk 1 in
    if size == 0
    then 0
    else if size == chunk
    then size
    else if size % chunk' == 0
    then size
    else mul32 (add32 (size / chunk') 1) chunk'

-- The address that an aligned buffer starts at, in an allocation at `pointer`.
pub aligned_address : ℕ → ℕ → ℕ
aligned_address alignment pointer = pointer - pointer % alignment + alignment

-- `free` of a block that is not allocated is undefined.
pub deallocate : ℕ → Heap → Run Heap
deallocate name h =
    if h.live name
    then ok (record h { live = λ j. if j == name then false else h.live j })
    else fault

module _ {A : Type 0} where
  pub empty_buffer : HeapBuffer A
  empty_buffer = record { buf = none; size = 0; real_size = 0 }

  pub is_null : Option (Memory A) → Bool
  is_null none = true
  is_null (some m) = false

  pub injected : HeapBuffer A → Bool
  unfolding is_null
  injected b = b.real_size == 0 && ltb 0 b.size && not (is_null b.buf)

  pub empty : HeapBuffer A → Bool
  empty b = b.size == 0

  pub reserved : HeapBuffer A → ℕ
  reserved b = if b.real_size == 0 then b.size else b.real_size

  -- `allocated()`, in bytes.
  pub allocated : ℕ → HeapBuffer A → ℕ
  allocated width b = mul32 b.real_size width

  -- `memory::copy` of the first `n` cells, which both blocks must have.
  pub copy_cells : ℕ → List (Option A) → List (Option A) → Run (List (Option A))
  copy_cells n dst src =
      if leb n (length dst) && leb n (length src) then ok (take n src ++ drop n dst) else fault

  -- The old block is given back at the end of `allocate`.
  pub give_back : HeapBuffer A → Option (Memory A) → Heap → Run Heap
  unfolding deallocate
  give_back b none h = ok h
  give_back b (some m) h = if ltb 0 b.real_size then deallocate m.name h else ok h

  -- The content of the new block: the old objects, where there are any.
  pub moved_cells : HeapBuffer A → ℕ → Option (Memory A) → List (Option A) → Run (List (Option A))
  unfolding copy_cells
  moved_cells b chunk none fresh = ok fresh
  moved_cells b chunk (some m) fresh =
      if ltb 0 b.size then copy_cells (min b.size chunk) fresh m.cells else ok fresh

  -- The objects from `i` on, `n` of them, are destroyed or constructed; each needs its cell.
  pub put_cells : List (Option A) → ℕ → List (Option A) → Run (List (Option A))
  put_cells cells i vs =
      if leb (i + length vs) (length cells)
      then ok (take i cells ++ (vs ++ drop (i + length vs) cells))
      else fault

  pub on_cells :
      Option (Memory A) → (List (Option A) → Run (List (Option A))) → Run (Option (Memory A))
  on_cells none f = fault
  on_cells (some m) f = f m.cells >>= λ cells. ok (some (record m { cells = cells }))

  -- `mBuf[i].~T()` for `i` from `from` up to `to`.
  pub destroy : HeapBuffer A → ℕ → ℕ → Run (HeapBuffer A)
  unfolding on_cells put_cells
  destroy b from to =
      on_cells b.buf (λ cells. put_cells cells from (replicate (to - from) none)) >>= λ buf.
      ok (record b { buf = buf })

  -- `new (mBuf + i) T(…)` for the objects `vs`, from the index `from` on.
  pub construct : HeapBuffer A → ℕ → List A → Run (HeapBuffer A)
  unfolding on_cells put_cells
  construct b from [] = ok b
  construct b from (v ∷ vs) =
      on_cells b.buf (λ cells. put_cells cells from (map some (v ∷ vs))) >>= λ buf.
      ok (record b { buf = buf })

  -- The end of `resize`, after the allocation.
  pub fill : A → ℕ → Bool × HeapBuffer A × Heap → Run (Bool × HeapBuffer A × Heap)
  fill fresh size (false, b, h) = ok (false, b, h)
  fill fresh size (true, b, h) = construct b b.size (replicate (size - b.size) fresh) >>= λ b'.
      ok (true, record b' { size = size }, h)

  -- The end of `push`, after the allocation.
  pub append : A → Bool × HeapBuffer A × Heap → Run (Bool × HeapBuffer A × Heap)
  append x (false, b, h) = ok (false, b, h)
  append x (true, b, h) =
      construct b b.size (x ∷ []) >>= λ b'. ok (true, record b' { size = add32 b.size 1 }, h)

  -- The copies that end `set`.
  pub copy_in : List A → Bool × HeapBuffer A × Heap → Run (Bool × HeapBuffer A × Heap)
  copy_in xs (false, b, h) = ok (false, b, h)
  copy_in xs (true, b, h) = construct b 0 xs >>= λ b'. ok (true, b', h)

-- `width` is `sizeof(T)`, `alignment` is the template argument, `fresh` what the constructor `T()` makes.
module _ {A : Type 0} (granted : Heap → ℕ → Bool) (width alignment : ℕ) where
  -- `const Size bytes = chunk * sizeof(T)` has 32 bits. The block has room for `bytes / width` objects.
  pub allocate : Heap → HeapBuffer A → ℕ → Run (Bool × HeapBuffer A × Heap)
  unfolding moved_cells give_back
  allocate h b chunk =
      let bytes = mul32 chunk width in
      let h' : Heap = record {
        next = h.next + 1;
        live = λ j. if j == h.next then true else h.live j;
      } in
      let grow : Run (Bool × HeapBuffer A × Heap) =
        moved_cells b chunk b.buf (replicate (bytes / width) none) >>= λ cells.
        give_back b b.buf h' >>= λ h''. ok (
          true,
          record b { buf = some (record { name = h.next; cells = cells }); real_size = chunk },
          h'',
        ) in
      let drop_all : Run (Bool × HeapBuffer A × Heap) =
        give_back b b.buf h >>= λ h''. ok (true, record b { buf = none; real_size = chunk }, h'') in
      if ltb 0 chunk
      then (if granted h (bytes + alignment) then grow else ok (false, b, h))
      else drop_all

  pub reserve : Heap → HeapBuffer A → ℕ → Run (Bool × HeapBuffer A × Heap)
  reserve h b size = if ltb size b.real_size then ok (true, b, h) else allocate h b size

  pub resize : A → Heap → HeapBuffer A → ℕ → Bool → Run (Bool × HeapBuffer A × Heap)
  resize fresh h b size downsize =
      let chunked = closest_chunk_size size chunk_size in
      let shrinks = ltb size b.size && not (is_null b.buf) && not (injected b) in
      (if shrinks then destroy b size b.size else ok b) >>= λ b₁.
      (if ltb b₁.real_size chunked || (downsize && ltb chunked b₁.real_size)
        then allocate h b₁ chunked
        else ok (true, b₁, h))
      >>= fill fresh size

  -- The constructor with a size: what `resize` returns is dropped.
  pub new : A → Heap → ℕ → Run (HeapBuffer A × Heap)
  unfolding empty_buffer resize
  new fresh h size =
      if not (size == 0)
      then (resize fresh h empty_buffer size true >>= λ r. ok (r.1, r.2))
      else ok (empty_buffer, h)

  pub clear : A → Heap → HeapBuffer A → Run (Bool × HeapBuffer A × Heap)
  clear fresh h b = resize fresh h b 0 false

  -- The destructor.
  pub destruct : A → Heap → HeapBuffer A → Run Heap
  destruct fresh h b = if injected b then ok h else resize fresh h b 0 true >>= λ r. ok r.2

  pub push : A → Heap → HeapBuffer A → Run (Bool × HeapBuffer A × Heap)
  push x h b =
      let new_size = add32 b.size 1 in
      (if ltb b.real_size new_size
        then allocate h b (closest_chunk_size new_size chunk_size)
        else ok (true, b, h))
      >>= append x

  -- `set(data, size)`, `xs` are the `size` objects at `data`.
  pub set_data : A → List A → Heap → HeapBuffer A → Run (Bool × HeapBuffer A × Heap)
  set_data fresh xs h b =
      (if not (is_null b.buf) then resize fresh h b 0 true else ok (true, b, h)) >>= λ r.
      resize fresh r.2 r.1 (length xs) true >>= copy_in xs

module _ {A : Type 0} where
  -- `mBuf[i]`, where an object must stand.
  pub object_at : Option (Memory A) → ℕ → Run A
  object_at none i = fault
  object_at (some m) i = read (get_elem? m.cells i) >>= read

  -- `none` means that the buffer was empty. The object stays in its cell.
  pub pop : HeapBuffer A → Run (Option A × HeapBuffer A)
  unfolding object_at
  pop b =
      if b.size == 0
      then ok (none, b)
      else object_at b.buf (b.size - 1) >>= λ x. ok (some x, record b { size = b.size - 1 })

  -- `remove(index)`: the last object's bytes go into the gap.
  pub remove_at : HeapBuffer A → ℕ → Run (Bool × HeapBuffer A)
  unfolding object_at construct destroy
  remove_at b index =
      if leb b.size index
      then ok (false, b)
      else destroy b index (index + 1) >>= λ b'.
          (if index == b.size - 1
            then ok b'
            else object_at b'.buf (b.size - 1) >>= λ x. construct b' index (x ∷ []))
          >>= λ b''. ok (true, record b'' { size = b.size - 1 })

  pub last : HeapBuffer A → Run A
  unfolding object_at
  last b = if b.size == 0 then fault else object_at b.buf (b.size - 1)

  pub first : HeapBuffer A → Run A
  unfolding object_at
  first b = object_at b.buf 0

  -- The loop of `remove(object)`, from the index `i` on, with the rounds left.
  pub remove_from : (A → A → Bool) → A → ℕ → ℕ → HeapBuffer A → Run (Bool × HeapBuffer A)
  remove_from equal x zero i b = ok (false, b)
  remove_from equal x (suc n) i b =
      let rest = remove_from equal x n (i + 1) b in
      object_at b.buf i >>= λ y. if equal y x then remove_at b i else rest

  pub remove_object : (A → A → Bool) → A → HeapBuffer A → Run (Bool × HeapBuffer A)
  unfolding remove_from
  remove_object equal x b = remove_from equal x b.size 0 b

  -- The loop of `remove` by address, which is `mBuf + address`.
  pub remove_pointed_from : ℕ → ℕ → ℕ → HeapBuffer A → Run (Bool × HeapBuffer A)
  remove_pointed_from address zero i b = ok (false, b)
  remove_pointed_from address (suc n) i b =
      let rest = remove_pointed_from address n (i + 1) b in
      if i == address then remove_at b i else rest

  pub remove_pointed : ℕ → HeapBuffer A → Run (Bool × HeapBuffer A)
  unfolding remove_pointed_from
  remove_pointed address b = remove_pointed_from address b.size 0 b

  pub disown : HeapBuffer A → HeapBuffer A
  unfolding empty
  disown b = if empty b then b else record b { real_size = 0 }

  -- The move constructor: the new buffer, and the source after it.
  pub move : HeapBuffer A → HeapBuffer A × HeapBuffer A
  unfolding disown
  move source = (source, disown source)

  -- `operator=`: what the target held before is not given back.
  pub assign : HeapBuffer A → HeapBuffer A → HeapBuffer A × HeapBuffer A
  unfolding disown
  assign target source = (source, disown source)

module _ {A : Type 0} (granted : Heap → ℕ → Bool) (width alignment : ℕ) where
  pub inject : A → Memory A → ℕ → Heap → HeapBuffer A → Run (HeapBuffer A × Heap)
  unfolding injected is_null disown
  inject fresh mem size h b =
      (if not (injected b) && not (is_null b.buf)
        then resize granted width alignment fresh h b 0 true
        else ok (true, b, h))
      >>= λ r. ok (record (disown r.1) { buf = some mem; size = size }, r.2)
