-- ===== src/Types/String.antt =====
-- src/types/TString.hpp: `String`, whose buffer `mData` holds the characters and the terminator.
-- A character is a number, 0 is the terminator. A C string is what stands behind its pointer. The
-- buffer's memory is taken to be granted.
pub mod Search
pub mod Equal
pub mod Append
mod Tests
use tklb.Base.{
  ℕ, zero, suc, ◌+◌, ◌-◌, ◌*◌, Bool, true, false, List, [], ◌∷◌, ◌++◌, length, get_elem?, set, take,
  replicate, ltb, ◌==◌, if◌then◌else◌, Run, ok, fault, ◌>>=◌, read, add32, sub32,
}

abbrev pub terminator : ℕ
terminator = 0

-- The inner loop of `contains`: the number of characters of `b` that match from `i + j` on, with the
-- rounds left.
pub match_from : ℕ → List ℕ → List ℕ → ℕ → ℕ → Run ℕ
match_from zero a b i j = ok j
match_from (suc n) a b i j =
    let rest = match_from n a b i (j + 1) in
    read (get_elem? a (i + j)) >>= λ x. read (get_elem? b j) >>= λ y. if x == y then rest else ok j

-- The outer loop.
pub contains_from : ℕ → ℕ → List ℕ → List ℕ → Run Bool
unfolding match_from
contains_from zero i a b = ok false
contains_from (suc n) i a b =
    let rest = contains_from n (i + 1) a b in
    if ltb (length a) (i + length b)
    then ok false
    else match_from (length b) a b i 0 >>= λ j. if j == sub32 (length b) 1 then ok true else rest

pub contains : List ℕ → List ℕ → Run Bool
unfolding contains_from
contains a b = contains_from (length a) 0 a b

-- The loop of `operator==`.
pub equal_from : List ℕ → (ℕ → ℕ) → ℕ → Bool
equal_from [] b i = false
equal_from (c ∷ cs) b i =
    let rest = equal_from cs b (i + 1) in
    if c == b i then (if b i == terminator then true else rest) else false

pub equal : List ℕ → (ℕ → ℕ) → Bool
unfolding equal_from
equal a b = equal_from a b 0

-- `MAX_LENGTH`.
abbrev pub max_length : ℕ
max_length = 1024 * 1024 * 32

-- The loop of `set` for a C string: the length with the terminator, with the rounds left.
pub length_from : ℕ → (ℕ → ℕ) → ℕ → ℕ
length_from zero str i = i
length_from (suc n) str i =
    let rest = length_from n str (i + 1) in if str i == terminator then i + 1 else rest

-- The characters at a pointer.
pub characters : ℕ → (ℕ → ℕ) → ℕ → List ℕ
characters zero str i = []
characters (suc n) str i = str i ∷ characters n str (i + 1)

-- `set` with a length, without `inject`: the terminator goes over the last character.
pub set_sized : (ℕ → ℕ) → ℕ → List ℕ → List ℕ
unfolding characters
set_sized str size old =
    if size == 0 then old else set (characters size str 0) (size - 1) terminator

pub set_string : (ℕ → ℕ) → List ℕ → List ℕ
unfolding set_sized length_from
set_string str old = set_sized str (length_from max_length str 0) old

-- `resize` of the buffer: it keeps what fits, and a new character is 0.
pub resized_to : ℕ → List ℕ → List ℕ
resized_to n a = take n a ++ replicate (n - length a) terminator

pub put_at : List ℕ → ℕ → ℕ → Run (List ℕ)
put_at a i c = if ltb i (length a) then ok (set a i c) else fault

-- The loop of `append`, with the rounds left.
pub append_from : ℕ → ℕ → ℕ → List ℕ → List ℕ → Run (List ℕ)
unfolding put_at
append_from zero i start b a = ok a
append_from (suc n) i start b a =
    read (get_elem? b i) >>= λ c. put_at a (add32 start i) c >>= append_from n (i + 1) start b

pub append : List ℕ → List ℕ → Run (List ℕ)
unfolding append_from resized_to
append b a =
    let start = sub32 (length a) 1 in
    append_from (length b) 0 start b (resized_to (add32 start (length b)) a)

-- The first loop of `prepend`, which moves the characters, with the rounds left.
pub move_from : ℕ → ℕ → ℕ → List ℕ → Run (List ℕ)
unfolding put_at
move_from zero i old_size a = ok a
move_from (suc n) i old_size a = read (get_elem? a (sub32 old_size i)) >>= λ c.
    put_at a (sub32 (length a) i) c >>= move_from n (i + 1) old_size

-- The second loop.
pub prepend_from : ℕ → ℕ → List ℕ → List ℕ → Run (List ℕ)
unfolding put_at
prepend_from zero i b a = ok a
prepend_from (suc n) i b a = read (get_elem? b i) >>= λ c. put_at a i c >>= prepend_from n (i + 1) b

pub prepend : List ℕ → List ℕ → Run (List ℕ)
unfolding move_from prepend_from resized_to
prepend b a =
    move_from (length a) 0 (length a) (resized_to (sub32 (add32 (length a) (length b)) 1) a)
    >>= λ moved. prepend_from (sub32 (length b) 1) 0 b moved
