-- ===== src/Types/String/Tests.antt =====
-- `String` at concrete inputs.
use tklb.Base.{ℕ, ◌≡◌, refl, true, false, [], ◌∷◌, ◌==◌, if◌then◌else◌, ok}
use tklb.Types.String.{match_from, contains_from, contains}

-- "ab" is in "abab", but only where more follows.
contains_front : contains (97 ∷ 98 ∷ 97 ∷ 98 ∷ 0 ∷ []) (97 ∷ 98 ∷ 0 ∷ []) ≡ ok true
unfolding contains contains_from match_from
contains_front = refl

contains_back : contains (97 ∷ 97 ∷ 98 ∷ 0 ∷ []) (97 ∷ 98 ∷ 0 ∷ []) ≡ ok false
unfolding contains contains_from match_from
contains_back = refl

-- "ab" behind a pointer.
abbrev two_letters : ℕ → ℕ
two_letters j = if j == 0 then 97 else if j == 1 then 98 else 0
