-- ===== src/Types/Audio/AudioRingBuffer/Tests.antt =====
-- `AudioRingBufferTpl` at concrete inputs.
use tklb.Base.{ℕ, ◌+◌, ◌<◌, ◌≡◌, refl, [], ◌∷◌, ok, arith}
use tklb.Types.Audio.Samples.{sweep}
use tklb.Types.Audio.AudioBuffer.{AudioBuffer, size, set_buffer, set_valid_size}
use tklb.Types.Audio.AudioBuffer.Cells.{IsValid}
use tklb.Types.Audio.AudioRingBuffer.{AudioRingBuffer, peek, pop, push, push_over}
use tklb.Types.Audio.AudioRingBuffer.Frames.{IsRing, frame}
use tklb.Types.Audio.AudioRingBuffer.Push.{Pushed, push-Pushed}
use tklb.Types.Audio.AudioRingBuffer.Peek.{Peeked}
use tklb.Types.Audio.AudioRingBuffer.Pop.{dropped, pop-dropped}
use tklb.Types.Audio.AudioRingBuffer.Over.{push_over-dropped}

abbrev same : ℕ → ℕ
same x = x

-- Three frames of one channel, the oldest is 12, the newest 10.
abbrev ring : AudioRingBuffer ℕ
ring = record {
  base = record { samples = 10 ∷ 11 ∷ 12 ∷ 13 ∷ []; valid_size = 4; channels = 1 };
  head = 3;
  tail = 1;
}

abbrev two_frames : AudioBuffer ℕ
two_frames = record { samples = 20 ∷ 21 ∷ []; valid_size = 2; channels = 1 }

abbrev silent : AudioBuffer ℕ
silent = record { samples = 0 ∷ 0 ∷ 0 ∷ []; valid_size = 3; channels = 1 }

ring-IsRing : IsRing ring
unfolding size
ring-IsRing = record {
  base = record { total = refl; fits = omega arith; valid = omega arith };
  head = omega arith;
  tail = omega arith;
}

two_frames-IsValid : IsValid two_frames
unfolding size
two_frames-IsValid = record { total = refl; fits = omega arith; valid = omega arith }

silent-IsValid : IsValid silent
unfolding size
silent-IsValid = record { total = refl; fits = omega arith; valid = omega arith }

push-Pushed_example : Pushed same ring two_frames 1 1 (push same two_frames 1 ring)
unfolding size
push-Pushed_example =
    push-Pushed same ring two_frames 1 ring-IsRing two_frames-IsValid (omega arith)

pop-dropped_example :
    (p : Peeked same ring 2 1 1 silent (peek same silent 2 1 1 ring)) × (pop same silent 2 1 1 ring
      ≡ ok (2, p.buffer, dropped ring 2))
    × IsRing (dropped ring 2)
    × ((c k : ℕ) → 2 + k < 3 → frame (dropped ring 2) c k ≡ frame ring c (2 + k))
unfolding size
pop-dropped_example =
    pop-dropped same silent 2 1 1 ring ring-IsRing silent-IsValid (omega arith) (omega arith)

push_over-dropped_example :
    Pushed same (dropped ring 2) two_frames 0 2 (push_over same two_frames ring)
unfolding size
push_over-dropped_example =
    push_over-dropped same ring two_frames ring-IsRing two_frames-IsValid (omega arith)
      (omega arith)

push_example :
    push same two_frames 0 ring
    ≡ ok (
      1,
      record {
        base = record { samples = 10 ∷ 20 ∷ 12 ∷ 13 ∷ []; valid_size = 4; channels = 1 };
        head = 4;
        tail = 2;
      },
    )
unfolding push set_buffer sweep
push_example = refl

-- Two frames are dropped although one of the two new ones has room: the ring is not full afterwards.
push_over_example :
    push_over same two_frames ring
    ≡ ok (
      2,
      record {
        base = record { samples = 10 ∷ 20 ∷ 21 ∷ 13 ∷ []; valid_size = 4; channels = 1 };
        head = 3;
        tail = 3;
      },
    )
unfolding push_over set_buffer sweep
push_over_example = refl

pop_example :
    pop same silent 3 0 0 ring
    ≡ ok (3, record silent { samples = 12 ∷ 13 ∷ 10 ∷ [] }, record ring { head = 0 })
unfolding pop set_buffer set_valid_size sweep
pop_example = refl
