-- ===== src/Util/Uuid/Tests.antt =====
-- Identifiers at concrete inputs.
use tklb.Base.{ℕ, ◌≤◌, ◌≡◌, refl, ◌<◌, true, false, ◌↔◌}
use tklb.Util.Random.{next, next_state, new}
use tklb.Util.Uuid.{
  Chars, fill, put, put_dashes, generate, should_be_dash, is_character, check, is_valid,
}
use tklb.Util.Uuid.Format.{Fits, is_valid_iff, is_valid-generate}

program : Unit {0}
unfolding next next_state new fill put put_dashes generate should_be_dash is_character check
    is_valid
program = tt

abbrev blank : Chars
blank i = 7

abbrev identifier : Chars
identifier = (generate (new 123) blank true).1

generated : is_valid identifier true ≡ true
unfolding program
generated = refl

blank_is_invalid : is_valid blank false ≡ false
unfolding program
blank_is_invalid = refl

is_valid-generate_example :
    let out = (generate (new 123) blank false).1 in
    (is_valid out false ≡ true) × ((j : ℕ) → 36 ≤ j → out j ≡ 7)
is_valid-generate_example = is_valid-generate (new 123) blank false

is_valid_iff_example :
    (is_valid identifier true ≡ true)
    ↔ (((i : ℕ) → i < 36 → Fits i (identifier i)) × (true ≡ true → identifier 36 ≡ 0))
is_valid_iff_example = is_valid_iff identifier true
