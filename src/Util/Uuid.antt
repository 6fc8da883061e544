-- ===== src/Util/Uuid.antt =====
-- src/util/TUuid.h: identifiers of 36 characters. A `char*` is the function from offsets to the
-- characters behind it.
pub mod Format
mod Tests
use tklb.Base.{
  ℕ, zero, suc, ◌+◌, ◌%◌, Bool, true, false, not, ◌&&◌, ◌||◌, List, [], ◌∷◌, get_or, ltb, leb, ◌==◌,
  if◌then◌else◌,
}
use tklb.Util.Random.{Random, next}

abbrev pub Chars : Type 0
Chars = ℕ → ℕ

pub put : Chars → ℕ → ℕ → Chars
put uuid i c j = if i == j then c else uuid j

abbrev pub dash_pos : List ℕ
dash_pos = 9 ∷ 14 ∷ 19 ∷ 24 ∷ []

-- "abcdefghijklmnopqrstuvwxyz0123456789"
abbrev pub character_set : List ℕ
character_set =
    97 ∷ 98 ∷ 99 ∷ 100 ∷ 101 ∷ 102 ∷ 103 ∷ 104 ∷ 105 ∷ 106 ∷ 107 ∷ 108 ∷ 109 ∷ 110 ∷ 111 ∷ 112 ∷ 113
    ∷ 114 ∷ 115 ∷ 116 ∷ 117 ∷ 118 ∷ 119 ∷ 120 ∷ 121 ∷ 122 ∷ 48 ∷ 49 ∷ 50 ∷ 51 ∷ 52 ∷ 53 ∷ 54 ∷ 55
    ∷ 56 ∷ 57 ∷ []

abbrev pub uuid_length : ℕ
uuid_length = 36

-- `for (; i < UUIDLength; i++)` of `generate`, with the rounds left. `sizeof(CharacterSet) - 1` is 36.
pub fill : ℕ → ℕ → Random → Chars → Random × Chars
fill zero i generator uuid = (generator, uuid)
fill (suc n) i generator uuid =
    let (r, generator') = next generator in
    fill n (i + 1) generator' (put uuid i (get_or character_set (r % 36) 0))

pub put_dashes : List ℕ → Chars → Chars
put_dashes [] uuid = uuid
put_dashes (i ∷ is) uuid = put_dashes is (put uuid i b'-')

-- The generator is a static variable: it comes in, and goes out changed.
pub generate : Random → Chars → Bool → Random × Chars
generate generator uuid ensure_escaped =
    let (generator', filled) = fill uuid_length 0 generator uuid in
    let dashed = put_dashes dash_pos filled in
    (generator', if ensure_escaped then put dashed uuid_length 0 else dashed)

-- The lambda `shouldBeDash`.
pub should_be_dash : List ℕ → ℕ → Bool
should_be_dash [] i = false
should_be_dash (j ∷ js) i = if j == i then true else should_be_dash js i

-- The test of the characters that may stand elsewhere.
pub is_character : ℕ → Bool
is_character c = (leb b'a' c && leb c b'z') || (leb b'0' c && leb c b'9')

-- The loop of `isValid`, with the rounds left.
pub check : ℕ → ℕ → Chars → Bool
check zero i uuid = true
check (suc n) i uuid =
    let rest = check n (i + 1) uuid in
    if should_be_dash dash_pos i
    then (if uuid i == b'-' then rest else false)
    else (if is_character (uuid i) then rest else false)

pub is_valid : Chars → Bool → Bool
is_valid uuid ensure_escaped =
    if check uuid_length 0 uuid
    then (if ensure_escaped && not (uuid uuid_length == 0) then false else true)
    else false

-- The overload for an array of exactly `UUIDLength` characters.
pub is_valid_sized : Chars → Bool
unfolding is_valid
is_valid_sized uuid = is_valid uuid false
