-- ===== src/Util/Uuid/Format.antt =====
-- What `isValid` accepts, and that `generate` makes nothing else.
use tklb.Base.{
  ℕ, zero, suc, ◌+◌, ◌%◌, ◌≤◌, ◌<◌, ◌≡◌, ◌≢◌, ◌==◌, eq→==, ==→eq, Bool-cases, refl, Bool, true,
  false, ◌&&◌, List, [], ◌∷◌, get_or, if◌then◌else◌, inl, inr, ◌↔◌, arith, ◌⊎◌, length, ◌∙◌,
  ℕ_discrete,
}
use tklb.Util.Random.{Random, next}
use tklb.Util.Uuid.{
  Chars, put, dash_pos, character_set, fill, put_dashes, generate, should_be_dash, is_character,
  check, is_valid,
}

-- An offset at which a dash stands, and the codes of the small letters and the digits, without the code's
-- tests.
abbrev pub IsDashOffset : ℕ → Type 0
IsDashOffset i = (i ≡ 9) ⊎ (i ≡ 14) ⊎ (i ≡ 19) ⊎ (i ≡ 24)

abbrev pub IsLetterOrDigit : ℕ → Type 0
IsLetterOrDigit c = ((97 ≤ c) × (c ≤ 122)) ⊎ ((48 ≤ c) × (c ≤ 57))

-- The character that may stand at `i`; 45 is the dash.
abbrev pub Fits : ℕ → ℕ → Type 0
Fits i c = (IsDashOffset i → c ≡ 45) × (¬ IsDashOffset i → IsLetterOrDigit c)

-- The tests of the code decide the format.
should_be_dash-true : (i : ℕ) → should_be_dash dash_pos i ≡ true → IsDashOffset i
unfolding should_be_dash
should_be_dash-true i h = ground arith

should_be_dash-false : (i : ℕ) → should_be_dash dash_pos i ≡ false → ¬ IsDashOffset i
unfolding should_be_dash
should_be_dash-false i h d = ground arith

is_character-true : (c : ℕ) → is_character c ≡ true → IsLetterOrDigit c
unfolding is_character
is_character-true c h = ground arith

is_character-IsLetterOrDigit : (c : ℕ) → IsLetterOrDigit c → is_character c ≡ true
unfolding is_character
is_character-IsLetterOrDigit c h = ground arith

-- One round of the test.
abbrev accepted : ℕ → ℕ → Bool
accepted i c = if should_be_dash dash_pos i then c == 45 else is_character c

accepted-Fits : (i c : ℕ) → accepted i c ≡ true → Fits i c
accepted-Fits i c h = elim (Bool-cases (should_be_dash dash_pos i)) [
  | inl dash ↦
      let is_dash : (c == 45) ≡ true = rw dash at h in
      (λ d. ==→eq c 45 is_dash, λ none. absurd (none (should_be_dash-true i dash)))
  | inr other ↦
      let is_other : is_character c ≡ true = rw other at h in
      (λ d. absurd (should_be_dash-false i other d), λ none. is_character-true c is_other)
]

Fits-accepted : (i c : ℕ) → Fits i c → accepted i c ≡ true
Fits-accepted i c h = elim (Bool-cases (should_be_dash dash_pos i)) [
  | inl dash ↦ rw dash (eq→== c 45 (h.0 (should_be_dash-true i dash)))
  | inr other ↦ rw other (is_character-IsLetterOrDigit c (h.1 (should_be_dash-false i other)))
]

check_head :
    (n i : ℕ) (uuid : Chars)
    → check (suc n) i uuid ≡ true
    → Fits i (uuid i) × (check n (i + 1) uuid ≡ true)
unfolding check
check_head n i uuid h =
    let now : accepted i (uuid i) ≡ true = ground arith in
    (accepted-Fits i (uuid i) now, ground arith)

check_sound :
    (n i : ℕ) (uuid : Chars) → check n i uuid ≡ true → (j : ℕ) → i ≤ j → j < i + n → Fits j (uuid j)
unfolding check
check_sound zero i uuid h j lo hi = absurd (omega arith)
check_sound (suc n) i uuid h j lo hi = elim (ℕ_discrete i j) [
  | yes e ↦ let first = check_head n i uuid h in rw (← e) first.0
  | no ne ↦ check_sound n (i + 1) uuid (check_head n i uuid h).1 j (omega arith) (omega arith)
]

check_complete :
    (n i : ℕ) (uuid : Chars)
    → ((j : ℕ) → i ≤ j → j < i + n → Fits j (uuid j))
    → check n i uuid ≡ true
unfolding check
check_complete zero i uuid h = refl
check_complete (suc n) i uuid h = ground (
  arith,
  Fits-accepted i (uuid i) (h i (omega arith) (omega arith)),
  check_complete n (i + 1) uuid (λ j lo hi. h j (omega arith) (omega arith)),
)

-- For any characters behind the pointer, `isValid` accepts exactly the identifiers that have a dash at the
-- offsets 9, 14, 19 and 24, a small letter or a digit at every other offset below 36, and, if that is asked
-- for, a terminator behind them.
pub is_valid_iff :
    (uuid : Chars) (ensure_escaped : Bool)
    → (is_valid uuid ensure_escaped ≡ true)
      ↔ (((i : ℕ) → i < 36 → Fits i (uuid i)) × (ensure_escaped ≡ true → uuid 36 ≡ 0))
unfolding is_valid
is_valid_iff uuid ensure_escaped = (
  λ h. (
    λ i lt. check_sound 36 0 uuid (ground arith) i (omega arith) (omega arith),
    λ e. ground arith,
  ),
  λ h. let c = check_complete 36 0 uuid (λ j lo hi. h.0 j hi) in ground (arith, c, h.1),
)

all_characters : List ℕ → Bool
all_characters [] = true
all_characters (c ∷ cs) = is_character c && all_characters cs

get_or-is_character :
    (cs : List ℕ) (i : ℕ)
    → all_characters cs ≡ true
    → i < length cs
    → is_character (get_or cs i 0) ≡ true
unfolding all_characters
get_or-is_character [] i h lt = absurd (omega arith)
get_or-is_character (c ∷ cs) zero h lt = ground arith
get_or-is_character (c ∷ cs) (suc i) h lt = get_or-is_character cs i (ground arith) (omega arith)

drawn-is_character : (r : ℕ) → is_character (get_or character_set (r % 36) 0) ≡ true
unfolding all_characters is_character
drawn-is_character r = get_or-is_character character_set (r % 36) refl (omega arith)

-- What the loop of `generate` leaves at `j`.
record Filled (n i : ℕ) (uuid out : Chars) (j : ℕ) : Type 0 where
  outside : (j < i) ⊎ (i + n ≤ j) → out j ≡ uuid j
  inside : i ≤ j → j < i + n → is_character (out j) ≡ true

put_self : (uuid : Chars) (i c : ℕ) → put uuid i c i ≡ c
unfolding put
put_self uuid i c = ground arith

put_ne : (uuid : Chars) (i c j : ℕ) → i ≢ j → put uuid i c j ≡ uuid j
unfolding put
put_ne uuid i c j h = ground arith

fill-Filled : (n i : ℕ) (g : Random) (uuid : Chars) (j : ℕ) → Filled n i uuid (fill n i g uuid).1 j
unfolding fill
fill-Filled zero i g uuid j = record { outside = λ h. refl; inside = λ lo hi. absurd (omega arith) }
fill-Filled (suc n) i g uuid j =
    let c = get_or character_set ((next g).0 % 36) 0 in
    let rest = fill-Filled n (i + 1) (next g).1 (put uuid i c) j in
    record {
      outside = elim [
        | inl h ↦ rest.outside (inl (omega arith)) ∙ put_ne uuid i c j (omega arith)
        | inr h ↦ rest.outside (inr (omega arith)) ∙ put_ne uuid i c j (omega arith)
      ];
      inside = λ lo hi. elim (ℕ_discrete i j) [
        | yes e ↦
            rw (rest.outside (inl (omega arith)), ← e, put_self uuid i c)
              (drawn-is_character (next g).0)
        | no ne ↦ rest.inside (omega arith) (omega arith)
      ];
    }

put_dashes_lem :
    (is : List ℕ) (uuid : Chars) (j : ℕ)
    → put_dashes is uuid j ≡ (if should_be_dash is j then b'-' else uuid j)
unfolding put_dashes should_be_dash put
put_dashes_lem [] uuid j = refl
put_dashes_lem (i ∷ is) uuid j = rw (put_dashes_lem is (put uuid i b'-') j) (ground arith)

should_be_dash-beyond : (j : ℕ) → 36 ≤ j → should_be_dash dash_pos j ≡ false
unfolding should_be_dash
should_be_dash-beyond j lt = ground arith

behind : (e : Bool) (j : ℕ) → (if e then 37 else 36) ≤ j → 36 ≤ j
behind true j le = omega arith
behind false j le = le

-- The terminator changes nothing behind it, and nothing where there is none.
terminated :
    (e : Bool) (j : ℕ) (uuid : Chars)
    → (if e then 37 else 36) ≤ j
    → (if e then put uuid 36 0 else uuid) j ≡ uuid j
terminated true j uuid le = put_ne uuid 36 0 j (omega arith)
terminated false j uuid le = refl

-- Whatever the generator's state and the memory's content, what `generate` writes is an identifier
-- that `isValid` accepts, and nothing behind it is written: with a terminator it writes 37 characters, and
-- without one 36.
pub is_valid-generate :
    (g : Random) (uuid : Chars) (ensure_escaped : Bool)
    → let out = (generate g uuid ensure_escaped).1 in
      (is_valid out ensure_escaped ≡ true)
      × ((j : ℕ) → (if ensure_escaped then 37 else 36) ≤ j → out j ≡ uuid j)
unfolding generate put
is_valid-generate g uuid ensure_escaped = (
  (is_valid_iff _ ensure_escaped).1 (
    (λ i lt. accepted-Fits i _ (
        ground (
          arith,
          put_dashes_lem dash_pos (fill 36 0 g uuid).1 i,
          (fill-Filled 36 0 g uuid i).inside (omega arith) (omega arith),
        ))),
    λ e. rw e refl,
  ),
  λ j le.
      let beyond = behind ensure_escaped j le in
      terminated ensure_escaped j (put_dashes dash_pos (fill 36 0 g uuid).1) le
      ∙ ground (
        arith,
        should_be_dash-beyond j beyond,
        put_dashes_lem dash_pos (fill 36 0 g uuid).1 j,
        (fill-Filled 36 0 g uuid j).outside (inr (omega arith)),
      ),
)
