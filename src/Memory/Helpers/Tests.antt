-- ===== src/Memory/Helpers/Tests.antt =====
-- `stringCopy`, `set` and `zero` at concrete inputs.
use tklb.Base.{ℕ, zero, suc, ◌≡◌, refl, true}
use tklb.Memory.Helpers.{set_elements, zero_bytes, string_copy}

abbrev ab : ℕ → ℕ
ab zero = 97
ab (suc zero) = 98
ab (suc (suc j)) = 0

abbrev sevens : ℕ → ℕ
sevens j = 7

string_copy_sized : string_copy 2 true ab sevens 1 ≡ 0
unfolding string_copy
string_copy_sized = refl

set_elements_example : set_elements 3 5 sevens 2 ≡ 5
unfolding set_elements
set_elements_example = refl

zero_bytes_example : zero_bytes 3 sevens 3 ≡ 7
unfolding zero_bytes
zero_bytes_example = refl
