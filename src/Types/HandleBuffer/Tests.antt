-- ===== src/Types/HandleBuffer/Tests.antt =====
-- `HandleBuffer` at concrete inputs.
use tklb.Base.{ℕ, ◌+◌, ◌*◌, ◌^◌, ◌≡◌, refl, none, some, [], ◌∷◌, ok, arith, true}
use tklb.Types.HandleBuffer.{
  HandleBuffer, empty, resized, link, close, resize, checked, at, take_slot, create, release,
  next_generation, remove, visit, iterate, invalid_handle, mask_index,
}
use tklb.Types.HandleBuffer.Fill.{create_all, count_from, Holds, create_all-resize}
use tklb.Types.HandleBuffer.Remove.{at-remove_stale, create-remove_twice}

program : Unit {0}
unfolding empty resized link close resize checked at take_slot create release next_generation remove
    visit iterate
program = tt

-- Two objects of three, in slots of generations 0 and 254.
abbrev pair : HandleBuffer ℕ
pair = record {
  elements =
      record { next = 1; value = some 10 }
      ∷ record { next = 254 * 2 ^ 24 + 2; value = some 11 }
      ∷ record { next = mask_index; value = none }
      ∷ [];
  start = 2;
  free = 1;
}

abbrev first_removed : HandleBuffer ℕ
first_removed = record {
  elements =
      record { next = 2 ^ 24; value = none }
      ∷ record { next = 254 * 2 ^ 24 + 2; value = some 11 }
      ∷ record { next = mask_index; value = none }
      ∷ [];
  start = 0;
  free = 2;
}

abbrev second_removed : HandleBuffer ℕ
second_removed = record {
  elements =
      record { next = 1; value = some 10 }
      ∷ record { next = 255 * 2 ^ 24 + 1; value = none }
      ∷ record { next = mask_index; value = none }
      ∷ [];
  start = 1;
  free = 2;
}

remove-first : remove pair 0 ≡ ok (true, first_removed)
unfolding program
remove-first = refl

remove-second : remove pair (254 * 2 ^ 24 + 1) ≡ ok (true, second_removed)
unfolding program
remove-second = refl

-- The object in slot 1 is not visited, the freed slot 0 is.
iterate-first_removed : iterate first_removed ≡ (2 ^ 24, none) ∷ []
unfolding program
iterate-first_removed = refl

create_all-resize_example :
    (b s : HandleBuffer ℕ) × (resize empty 3 ≡ ok b)
    × (create_all (10 ∷ 11 ∷ 12 ∷ []) b ≡ ok (count_from 0 3, s))
    × Holds s 0 (10 ∷ 11 ∷ 12 ∷ [])
    × (create 13 s ≡ ok (invalid_handle, s))
unfolding empty
create_all-resize_example =
    create_all-resize empty 3 (10 ∷ 11 ∷ 12 ∷ []) 13 refl (omega arith) (omega arith) refl

at-remove_stale_example : at first_removed 0 ≡ ok none
at-remove_stale_example = at-remove_stale pair 0 first_removed (omega arith) remove-first

create-remove_twice_example :
    (c d : HandleBuffer ℕ) × (create 20 first_removed ≡ ok (2 ^ 24, c))
    × (create 21 c ≡ ok (2 ^ 24, d))
create-remove_twice_example =
    create-remove_twice pair 0 first_removed (omega arith) remove-first 20 21 (omega arith)
