-- ===== src/Types/StackString.antt =====
-- src/types/TString.hpp: `StackString`. The state is the list of its `N` characters, 0 is the terminator.
-- A C string is what stands behind its pointer.
pub mod Content
pub mod Equal
mod Tests
use tklb.Base.{
  ℕ, zero, suc, ◌+◌, ◌-◌, Bool, true, false, List, [], ◌∷◌, length, get_elem?, get_or, set,
  replicate, min, ltb, ◌==◌, if◌then◌else◌, Option, none, some, Run, ok, fault, ◌>>=◌, read, sub64,
}

abbrev pub stack_terminator : ℕ
stack_terminator = 0

pub new_string : ℕ → List ℕ
new_string n = replicate n stack_terminator

-- `operator[]` for reading.
pub char_at : List ℕ → ℕ → ℕ
char_at d i = get_or d i stack_terminator

-- The first loop of `set`, with the rounds left: where it ends, and the characters.
pub copy_from : ℕ → ℕ → (ℕ → ℕ) → List ℕ → ℕ × List ℕ
copy_from zero i str d = (i, d)
copy_from (suc k) i str d =
    let rest = copy_from k (i + 1) str (set d i (str i)) in
    if str i == stack_terminator then (i, d) else rest

-- The second loop.
pub fill_from : ℕ → ℕ → List ℕ → List ℕ
fill_from zero i d = d
fill_from (suc k) i d = fill_from k (i + 1) (set d i stack_terminator)

pub set_c_string : (ℕ → ℕ) → List ℕ → List ℕ
unfolding copy_from fill_from
set_c_string str d =
    if length d == 0
    then d
    else (let (i, d') = copy_from (length d) 0 str d in
        set (fill_from (length d - i) i d') (length d - 1) stack_terminator)

pub is_empty : List ℕ → Bool
is_empty [] = true
is_empty (c ∷ cs) = c == stack_terminator

pub string_size : List ℕ → ℕ
string_size [] = 0
string_size (c ∷ cs) = let rest = string_size cs in if c == stack_terminator then 0 else suc rest

-- `operator==` of two such strings.
pub same_from : List ℕ → List ℕ → Bool
same_from [] b = true
same_from (x ∷ a) [] = true
same_from (x ∷ a) (y ∷ b) = let rest = same_from a b in if x == y then rest else false

pub same_string : List ℕ → List ℕ → Bool
unfolding same_from
same_string [] b = false
same_string (x ∷ a) b = same_from (x ∷ a) b

-- `operator==` for a C string, which may be null, and its loop.
pub equal_c_from : List ℕ → (ℕ → ℕ) → ℕ → Bool
equal_c_from [] str i = true
equal_c_from (c ∷ cs) str i =
    let rest = equal_c_from cs str (i + 1) in
    if str i == stack_terminator then str i == c else if str i == c then rest else false

pub equal_c_string : List ℕ → Option (ℕ → ℕ) → Bool
unfolding is_empty equal_c_from
equal_c_string d none = if is_empty d then true else false
equal_c_string d (some str) = if is_empty d then str 0 == stack_terminator else equal_c_from d str 0

-- A write behind a pointer.
pub write_char : List ℕ → ℕ → ℕ → Run (List ℕ)
write_char xs i c = if ltb i (length xs) then ok (set xs i c) else fault

-- The loop of `put`.
pub put_from : ℕ → ℕ → List ℕ → List ℕ → Run (List ℕ)
unfolding write_char
put_from zero i d str = ok str
put_from (suc k) i d str =
    read (get_elem? d i) >>= λ c. write_char str i c >>= λ str'. put_from k (i + 1) d str'

pub put_c_string : List ℕ → ℕ → List ℕ → Run (List ℕ)
unfolding put_from
put_c_string d len str =
    if length d == 0
    then ok str
    else (put_from (min (length d) len) 0 d str >>= λ str'.
        write_char str' (min (length d) (sub64 len 1)) stack_terminator)
