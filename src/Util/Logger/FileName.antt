-- ===== src/Util/Logger/FileName.antt =====
-- The name of the file in a path.
use tklb.Base.{
  ℕ, zero, suc, ◌+◌, ◌<◌, ◌≡◌, ◌≢◌, refl, ap, ◌∙◌, true, false, List, [], ◌∷◌, ◌++◌, length, drop,
  get_elem?, some, ne→==, if◌then◌else◌, ok, arith,
}
use tklb.Util.Logger.{buffer_size, is_delimiter, delimiter_from, file_name}

-- Characters of which none ends the string.
abbrev pub NoTerminator : List ℕ → Type 0
NoTerminator [] = Unit
NoTerminator (c ∷ cs) = (c ≢ 0) × NoTerminator cs

abbrev pub NoDelimiter : List ℕ → Type 0
NoDelimiter [] = Unit
NoDelimiter (c ∷ cs) = (is_delimiter c ≡ false) × NoDelimiter cs

-- The index of the last delimiter in the characters, the first of which has the index `i`.
abbrev last_of : List ℕ → ℕ → ℕ → ℕ
last_of [] i last = last
last_of (c ∷ cs) i last = last_of cs (i + 1) (if is_delimiter c then i else last)

last_of-append :
    (cs bs : List ℕ) (i last : ℕ)
    → last_of (cs ++ bs) i last ≡ last_of bs (i + length cs) (last_of cs i last)
last_of-append [] bs i last = ap (λ k. last_of bs k last) (omega arith)
last_of-append (c ∷ cs) bs i last =
    let next = if is_delimiter c then i else last in
    last_of-append cs bs (i + 1) next
    ∙ ap (λ k. last_of bs k (last_of cs (i + 1) next)) (omega arith)

last_of-NoDelimiter : (cs : List ℕ) (i last : ℕ) → NoDelimiter cs → last_of cs i last ≡ last
last_of-NoDelimiter [] i last none = refl
last_of-NoDelimiter (c ∷ cs) i last none = rw none.0 (last_of-NoDelimiter cs (i + 1) last none.1)

delimiter_from_lem :
    (k : ℕ) (cs rest path : List ℕ) (i last : ℕ)
    → NoTerminator cs
    → length cs < k
    → ((j : ℕ) → get_elem? path (i + j) ≡ get_elem? (cs ++ 0 ∷ rest) j)
    → delimiter_from k path i last ≡ ok (last_of cs i last)
unfolding delimiter_from
delimiter_from_lem zero cs rest path i last no_end enough behind = absurd (omega arith)
delimiter_from_lem (suc k) [] rest path i last no_end enough behind =
    let here : get_elem? path i ≡ some 0 = ap (get_elem? path) (omega arith) ∙ behind 0 in rw here
delimiter_from_lem (suc k) (c ∷ cs) rest path i last no_end enough behind =
    let here : get_elem? path i ≡ some c = ap (get_elem? path) (omega arith) ∙ behind 0 in
    rw (here, ne→== c 0 no_end.0)
      (delimiter_from_lem k cs rest path (i + 1) (if is_delimiter c then i else last) no_end.1
        (omega arith) (λ j. ap (get_elem? path) (omega arith) ∙ behind (suc j)))

file_name-last_of :
    (cs rest : List ℕ)
    → NoTerminator cs
    → length cs < buffer_size
    → file_name (cs ++ 0 ∷ rest) ≡ ok (drop (last_of cs 0 0 + 1) (cs ++ 0 ∷ rest))
unfolding file_name
file_name-last_of cs rest no_end short =
    rw
      (delimiter_from_lem buffer_size cs rest (cs ++ 0 ∷ rest) 0 0 no_end short
        (λ j. ap (get_elem? (cs ++ 0 ∷ rest)) (omega arith)))
      refl

behind_last :
    (dir : List ℕ) (delimiter : ℕ) (name : List ℕ)
    → is_delimiter delimiter ≡ true
    → NoDelimiter name
    → last_of (delimiter ∷ name) (0 + length dir) (last_of dir 0 0) ≡ length dir
behind_last dir delimiter name is none =
    rw is (last_of-NoDelimiter name (0 + length dir + 1) (0 + length dir) none ∙ omega arith)

drop-last :
    (dir : List ℕ) (c : ℕ) (cs rest : List ℕ)
    → drop (length dir + 1) ((dir ++ c ∷ cs) ++ rest) ≡ cs ++ rest
drop-last [] c cs rest = refl
drop-last (d ∷ dir) c cs rest =
    ap (λ k. drop k ((d ∷ dir ++ c ∷ cs) ++ rest)) (one_more (length dir)) ∙ drop-last dir c cs rest
  where
    one_more : (n : ℕ) → suc n + 1 ≡ suc (n + 1)
    one_more n = omega arith

-- For a path of less than 1024 characters with a delimiter, what is printed is what stands behind the last
-- delimiter.
pub file_name-NoDelimiter :
    (dir : List ℕ) (delimiter : ℕ) (name rest : List ℕ)
    → is_delimiter delimiter ≡ true
    → NoDelimiter name
    → NoTerminator (dir ++ delimiter ∷ name)
    → length (dir ++ delimiter ∷ name) < buffer_size
    → file_name ((dir ++ delimiter ∷ name) ++ 0 ∷ rest) ≡ ok (name ++ 0 ∷ rest)
file_name-NoDelimiter dir delimiter name rest is none no_end short =
    let place : last_of (dir ++ delimiter ∷ name) 0 0 ≡ length dir =
      last_of-append dir (delimiter ∷ name) 0 0 ∙ behind_last dir delimiter name is none in
    file_name-last_of (dir ++ delimiter ∷ name) rest no_end short
    ∙ ap (λ k. ok (drop (k + 1) ((dir ++ delimiter ∷ name) ++ 0 ∷ rest))) place
    ∙ ap ok (drop-last dir delimiter name (0 ∷ rest))

-- Of a path of less than 1024 characters without a delimiter the first character is lost.
pub file_name-lost :
    (c : ℕ) (name rest : List ℕ)
    → NoDelimiter (c ∷ name)
    → NoTerminator (c ∷ name)
    → length (c ∷ name) < buffer_size
    → file_name (c ∷ name ++ 0 ∷ rest) ≡ ok (name ++ 0 ∷ rest)
file_name-lost c name rest none no_end short =
    file_name-last_of (c ∷ name) rest no_end short
    ∙ ap (λ k. ok (drop (k + 1) (c ∷ name ++ 0 ∷ rest))) (last_of-NoDelimiter (c ∷ name) 0 0 none)
