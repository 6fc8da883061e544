-- ===== src/Types/Audio/Wave/Stall.antt =====
-- What `Wave::load` does with a file that holds less than its header says.
use tklb.Base.{
  ℕ, zero, suc, ◌+◌, ◌*◌, ◌%◌, ◌^◌, ◌≤◌, ◌<◌, ◌≡◌, refl, ap, sym, ◌∙◌, Bool, true, List, length,
  length-replicate, replicate, none, some, lt→ltb, min, ok, add32_lem, arith,
}
use native.Mathlib.Nat.{mod-eq_of_lt, mul-le-mul_right}
use tklb.Types.HeapBuffer.{closest_chunk_size}
use tklb.Types.Audio.AudioBuffer.{AudioBuffer, size, resize, set_from_interleaved}
use tklb.Types.Audio.AudioBuffer.Cells.{IsValid}
use tklb.Types.Audio.AudioBuffer.Copy.{size-fits}
use tklb.Types.Audio.AudioBuffer.Deinterleave.{set_from_interleaved-Deinterleaved}
use tklb.Types.Audio.AudioBuffer.Resize.{resize-Reshaped}
use tklb.Types.Audio.Wave.Chunk.{load_round, length_chunk}
use tklb.Types.Audio.Wave.DrWav.{Decoder, ReadsFrames}
use tklb.Types.Audio.Wave.{load_loop, load_end, load_opened, load_wave, overwrite, chunk_size}

module _ {A B : Type 0} (d : Decoder B) (convert : B → A) (f : ReadsFrames d) where
  load_loop-none :
      (fuel : ℕ) (w : d.Wav) (chunk : List B) (read : ℕ) (out : AudioBuffer A)
      → IsValid out
      → out.channels ≡ d.channels w
      → d.channels w < 256
      → read + f.left w < d.total w
      → d.total w ≤ size out
      → length chunk ≡ chunk_size * d.channels w
      → load_loop d convert fuel w chunk read out ≡ ok none
  unfolding load_loop
  load_loop-none zero w chunk read out v e narrow short room full = refl
  load_loop-none (suc fuel) w chunk read out v e narrow short room full =
      let n = min chunk_size (f.left w) in
      let g = d.read_frames chunk_size w in
      let chunk' = overwrite g.1 chunk in
      let full' = length_chunk d convert f w chunk full in
      let b =
        set_from_interleaved-Deinterleaved convert chunk' n read out v (omega arith)
          (rw e (omega (arith, full', full, mul-le-mul_right (d.channels w) (least (f.left w))))) in
      let left' = f.left_behind chunk_size w in
      let ch' : d.channels g.2 ≡ d.channels w = f.same_channels chunk_size w in
      let total' : d.total g.2 ≡ d.total w = f.same_total chunk_size w in
      load_round d convert f fuel w chunk read n (read + n) (d.channels w) out b.buffer
        (lt→ltb read (d.total w) (omega arith)) (f.got chunk_size w) (mod-eq_of_lt narrow)
        (ap (λ k. set_from_interleaved convert chunk' n k 0 read out) (sym e) ∙ b.run)
        (add32_lem read n (omega (arith, size-fits out v)))
      ∙ load_loop-none fuel g.2 chunk' (read + n) b.buffer b.valid (b.channels ∙ e ∙ sym ch')
          (omega arith) (omega arith) (omega (arith, b.same_size)) (omega (arith, full', full, ch'))
    where
      least : (k : ℕ) → min chunk_size k ≤ chunk_size
      least k = omega arith

  -- For a file that opens but holds fewer frames than its header says, of at least one and less than 256
  -- channels, where the storage can have the announced frames and the sizes fit 32 bits, `load` does not
  -- end: no number of rounds is enough.
  pub load_wave-none :
      (granted : ℕ → Bool) (silence : A) (stride : ℕ) (quiet : B) (fuel : ℕ) (file : List ℕ)
      (out : AudioBuffer A) (rate : ℕ) (w : d.Wav)
      → ((n : ℕ) → granted n ≡ true)
      → IsValid out
      → d.open_memory file ≡ some w
      → f.left w < d.total w
      → 0 < d.channels w
      → d.channels w < 256
      → d.total w + stride < 2 ^ 32
      → d.channels w * closest_chunk_size (d.total w) stride < 2 ^ 32
      → load_wave d convert granted silence stride quiet fuel file out rate ≡ ok none
  unfolding load_wave load_opened load_end
  load_wave-none granted silence stride quiet fuel file out rate w always v opened short
        some_channel narrow small fits =
      let s =
        resize-Reshaped granted silence stride (d.total w) (d.channels w) out always v some_channel
          small fits in
      let l =
        load_loop-none fuel w (replicate (chunk_size * d.channels w) quiet) 0
          (resize granted silence stride (d.total w) (d.channels w) out).1 s.valid s.channels narrow
          (omega arith) s.room (length-replicate (chunk_size * d.channels w) quiet) in
      let total : d.total w % 2 ^ 32 ≡ d.total w = mod-eq_of_lt (omega arith) in
      let chan : d.channels w % 256 ≡ d.channels w = mod-eq_of_lt narrow in
      rw (opened, total, chan, l)
