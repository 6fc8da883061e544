-- ===== src/Types/HeapBuffer/Tests.antt =====
-- `HeapBuffer` at concrete inputs.
use tklb.Base.{
  ℕ, ◌*◌, ◌^◌, ◌<◌, ◌≡◌, refl, Bool, true, false, none, some, [], ◌∷◌, ◌++◌, replicate, take, ◌==◌,
  if◌then◌else◌, ok, fault, ◌>>=◌, arith,
}
use tklb.Types.HeapBuffer.{
  Heap, Memory, HeapBuffer, closest_chunk_size, chunk_size, resize, destruct, push, remove_at, move,
}
use tklb.Types.HeapBuffer.Chunks.{closest_chunk_size_bounds}
use tklb.Types.HeapBuffer.Owned.{Holds}
use tklb.Types.HeapBuffer.Allocate.{owns}
use tklb.Types.HeapBuffer.Resize.{Resized, resize-Resized}
use tklb.Types.HeapBuffer.Push.{push-Resized}
use tklb.Types.HeapBuffer.Remove.{Removed, remove_at-Removed}
use tklb.Types.HeapBuffer.Move.{destruct-Holds, destruct-move, destruct-move_vacant}

abbrev grants : Heap → ℕ → Bool
grants h n = true

abbrev refuses : Heap → ℕ → Bool
refuses h n = false

-- One block, of 16 elements, with two objects.
abbrev heap : Heap
heap = record { next = 1; live = λ j. j == 0 }

abbrev block : Memory ℕ
block = record { name = 0; cells = some 10 ∷ some 11 ∷ replicate 14 none }

abbrev pair : HeapBuffer ℕ
pair = record { buf = some block; size = 2; real_size = 16 }

abbrev cleared : HeapBuffer ℕ
cleared = record { buf = some block; size = 0; real_size = 16 }

abbrev full : HeapBuffer ℕ
full = record { buf = some block; size = 16; real_size = 16 }

pair-Holds : Holds heap pair (10 ∷ 11 ∷ [])
pair-Holds = record {
  size = refl;
  memory = (omega arith, refl, refl, omega arith, (replicate 14 none, refl));
}

resize-Resized_example :
    Resized grants 4 16
      (λ h n. refl)
      (omega arith)
      heap
      pair
      (take 20 (10 ∷ 11 ∷ []) ++ replicate 18 0)
      (resize grants 4 16 0 heap pair 20 false)
resize-Resized_example =
    resize-Resized grants 4 16 (λ h n. refl) (omega arith) 0 heap pair 20 false (10 ∷ 11 ∷ [])
      pair-Holds (omega arith) small
  where
    small : closest_chunk_size 20 chunk_size * 4 < 2 ^ 32
    small = omega (arith, closest_chunk_size_bounds 20 (omega arith))

push-Resized_example :
    Resized grants 4 16
      (λ h n. refl)
      (omega arith)
      heap
      pair
      (10 ∷ 11 ∷ 12 ∷ [])
      (push grants 4 16 12 heap pair)
push-Resized_example =
    push-Resized grants 4 16 (λ h n. refl) (omega arith) 12 heap pair (10 ∷ 11 ∷ []) pair-Holds
      (omega arith) small
  where
    small : closest_chunk_size 3 chunk_size * 4 < 2 ^ 32
    small = omega (arith, closest_chunk_size_bounds 3 (omega arith))

destruct-Holds_example :
    (h' : Heap) × (destruct refuses 4 16 0 heap pair ≡ ok h')
    × ((j : ℕ) → h'.live j ≡ (if owns (some block) j then false else heap.live j))
destruct-Holds_example = destruct-Holds refuses 4 16 0 heap pair (10 ∷ 11 ∷ []) pair-Holds

cleared-Holds : Holds heap cleared []
cleared-Holds = record {
  size = refl;
  memory = (omega arith, refl, refl, omega arith, (some 10 ∷ some 11 ∷ replicate 14 none, refl));
}

destruct-move_example :
    (h' : Heap) × ((destruct grants 4 16 0 heap (move pair).0 >>= λ g.
    destruct grants 4 16 0 g (move pair).1)
      ≡ ok h')
    × ((j : ℕ) → h'.live j ≡ (if j == 0 then false else heap.live j))
destruct-move_example =
    destruct-move grants 4 16 0 heap block 2 16 (10 ∷ 11 ∷ []) pair-Holds (omega arith)

destruct-move_vacant_example :
    (destruct grants 4 16 0 heap (move cleared).0 >>= λ g.
    destruct grants 4 16 0 g (move cleared).1)
    ≡ fault
destruct-move_vacant_example = destruct-move_vacant grants 4 16 0 heap block 16 cleared-Holds

remove_at-Removed_example : Removed heap pair (11 ∷ []) (remove_at pair 0)
remove_at-Removed_example = remove_at-Removed heap pair [] 10 (11 ∷ []) pair-Holds
