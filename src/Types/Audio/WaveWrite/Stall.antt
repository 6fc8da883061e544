-- ===== src/Types/Audio/WaveWrite/Stall.antt =====
-- The loop of `Wave::write` where the memory of the library cannot grow.
use tklb.Base.{
  ℕ, zero, suc, ◌-◌, ◌*◌, ◌≤◌, ◌<◌, ◌≡◌, refl, Bool, false, List, length, min, none, lt→ltb, ok,
  add64, arith,
}
use native.Mathlib.Nat.{mul-le-mul_right}
use tklb.Types.Audio.AudioBuffer.{AudioBuffer}
use tklb.Types.Audio.AudioBuffer.Cells.{IsValid}
use tklb.Types.Audio.AudioBuffer.Copy.{size-fits}
use tklb.Types.Audio.AudioBuffer.Interleave.{emitted, put_interleaved-Emitted}
use tklb.Types.Audio.WaveWrite.DrWav.{WritesFrames}
use tklb.Types.Audio.WaveWrite.{write_chunk_size, write_loop}

module _ {A S W : Type 0} (convert : A → S) (write_frames : ℕ → List S → W → ℕ × W)
    (sound : AudioBuffer A) (width : ℕ) (bits : W → ℕ) (has_room : ℕ → W → Bool)
    (d : WritesFrames sound.channels width bits has_room write_frames) where
  -- With frames left to write and a memory that has no room, the loop does not end: no number of rounds is
  -- enough.
  pub write_loop-none :
      (fuel : ℕ) (w : W) (target : List S) (written : ℕ)
      → ((n : ℕ) (w' : W) → has_room n w' ≡ false)
      → IsValid sound
      → 0 < sound.channels
      → write_chunk_size * sound.channels ≤ length target
      → written < sound.valid_size
      → write_loop convert write_frames fuel w target written sound ≡ ok none
  unfolding write_loop
  write_loop-none zero w target written full v pos fits lt = refl
  write_loop-none (suc fuel) w target written full v pos fits lt =
      let n = emitted convert sound write_chunk_size written in
      let small : n * sound.channels ≤ length target =
        omega (arith, mul-le-mul_right sound.channels (least (sound.valid_size - written))) in
      let e =
        put_interleaved-Emitted convert target write_chunk_size written sound v pos (omega arith)
          small in
      let same : add64 written 0 ≡ written = omega (arith, v.valid, size-fits sound v) in
      rw (lt→ltb written sound.valid_size lt, e.run, d.refused n e.result w (full n w), same)
        (write_loop-none fuel (write_frames n e.result w).1 e.result written full v pos
          (omega (arith, e.same_length)) lt)
    where
      least : (k : ℕ) → min k write_chunk_size ≤ write_chunk_size
      least k = omega arith
