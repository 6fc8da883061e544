-- ===== src/Util/Logger/Tests.antt =====
-- The name of a file with a directory.
use tklb.Base.{◌≡◌, refl, [], ◌∷◌, ok, arith}
use tklb.Util.Logger.{file_name}
use tklb.Util.Logger.FileName.{file_name-NoDelimiter}

-- "s/a" and "ab".
file_name-NoDelimiter_example : file_name (115 ∷ 47 ∷ 97 ∷ 0 ∷ []) ≡ ok (97 ∷ 0 ∷ [])
file_name-NoDelimiter_example =
    file_name-NoDelimiter (115 ∷ []) 47 (97 ∷ []) [] refl (refl, tt)
      ((λ e. omega arith), ((λ e. omega arith), ((λ e. omega arith), tt))) (omega arith)

file_name_example : file_name (97 ∷ 98 ∷ 0 ∷ []) ≡ ok (98 ∷ 0 ∷ [])
unfolding file_name
file_name_example = refl
