-- ===== src/Types/StackString/Tests.antt =====
-- `StackString` at concrete inputs.
use tklb.Base.{
  ℕ, zero, suc, ◌<◌, ◌≡◌, ◌≢◌, refl, true, false, [], ◌∷◌, some, none, ok, fault, arith,
}
use tklb.Types.StackString.{
  new_string, char_at, set_c_string, is_empty, string_size, same_string, equal_c_string,
  put_c_string,
}
use tklb.Types.StackString.Content.{IsString}
use tklb.Types.StackString.Equal.{equal_c_string-set_c_string}

-- The C string of three characters.
abbrev abc : ℕ → ℕ
abc zero = 97
abc (suc zero) = 98
abc (suc (suc zero)) = 99
abc (suc (suc (suc j))) = 0

abc-IsString : IsString abc 3 3
abc-IsString = record { characters = char; end = λ lt. absurd (omega arith) }
  where
    char : (j : ℕ) → j < 3 → abc j ≢ 0
    char zero lt e = omega arith
    char (suc zero) lt e = omega arith
    char (suc (suc zero)) lt e = omega arith
    char (suc (suc (suc j))) lt e = omega arith

set_c_string_example : set_c_string abc (7 ∷ 7 ∷ 7 ∷ []) ≡ 97 ∷ 98 ∷ 0 ∷ []
unfolding set_c_string
set_c_string_example = refl

new_string_example : set_c_string abc (new_string 5) ≡ 97 ∷ 98 ∷ 99 ∷ 0 ∷ 0 ∷ []
unfolding set_c_string new_string
new_string_example = refl

equal_c_string-set_c_string_example :
    (string_size (set_c_string abc (7 ∷ 7 ∷ 7 ∷ [])) ≡ 2)
    × (equal_c_string (set_c_string abc (7 ∷ 7 ∷ 7 ∷ [])) (some abc) ≡ false)
equal_c_string-set_c_string_example =
    equal_c_string-set_c_string abc 3 (7 ∷ 7 ∷ 7 ∷ []) (omega arith) abc-IsString

put_c_string_example : put_c_string (97 ∷ 98 ∷ 0 ∷ []) 2 (5 ∷ 5 ∷ 5 ∷ []) ≡ ok (97 ∷ 0 ∷ 5 ∷ [])
unfolding put_c_string
put_c_string_example = refl

-- For the length 0 a character is written behind the target.
put_c_string_none : put_c_string (97 ∷ 98 ∷ 0 ∷ []) 0 [] ≡ fault
unfolding put_c_string
put_c_string_none = refl

same_string_example : same_string (97 ∷ 0 ∷ []) (97 ∷ 0 ∷ 0 ∷ []) ≡ true
unfolding same_string
same_string_example = refl

char_at_example : char_at (97 ∷ 0 ∷ []) 5 ≡ 0
unfolding char_at
char_at_example = refl

equal_null_example : equal_c_string (97 ∷ 0 ∷ []) none ≡ false
unfolding equal_c_string is_empty
equal_null_example = refl
