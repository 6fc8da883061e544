-- ===== src/Types/Audio/Wave/Chunk.antt =====
-- One round of the loop of `Wave::load`, and the chunk it reads.
use tklb.Base.{
  ℕ, suc, ◌+◌, ◌-◌, ◌*◌, ◌%◌, ◌≤◌, ◌<◌, ◌≡◌, ap, ◌∙◌, true, List, length, length-take, length-drop,
  length-append, drop, get_elem?, get_elem?-take, get_elem?-drop, get_elem?-append_left, ltb, min,
  ok, ◌>>=◌, add32, arith,
}
use native.Mathlib.Nat.{add-mul, mul-le-mul_right}
use tklb.Types.Audio.AudioBuffer.{AudioBuffer, set_from_interleaved}
use tklb.Types.Audio.AudioBuffer.Deinterleave.{interleaved-inside}
use tklb.Types.Audio.Wave.DrWav.{Decoder, ReadsFrames}
use tklb.Types.Audio.Wave.{load_loop, overwrite, chunk_size}

module _ {A B : Type 0} (d : Decoder B) (convert : B → A) (f : ReadsFrames d) where
  -- One round of the loop.
  pub load_round :
      (fuel : ℕ) (w : d.Wav) (chunk : List B) (read n r chan : ℕ) (out out' : AudioBuffer A)
      → ltb read (d.total w) ≡ true
      → (d.read_frames chunk_size w).0 ≡ n
      → d.channels w % 256 ≡ chan
      → set_from_interleaved convert
          (overwrite (d.read_frames chunk_size w).1 chunk)
          n
          chan
          0
          read
          out
        ≡ ok out'
      → add32 read n ≡ r
      → load_loop d convert (suc fuel) w chunk read out
        ≡ load_loop d convert fuel
            (d.read_frames chunk_size w).2
            (overwrite (d.read_frames chunk_size w).1 chunk)
            r
            out'
  unfolding load_loop
  load_round fuel w chunk read n r chan out out' more e₁ e₂ e₃ e₄ = rw (more, e₁, e₂, e₃, ◌>>=◌, e₄)

  length-overwrite :
      (new old : List B) → length new ≤ length old → length (overwrite new old) ≡ length old
  unfolding overwrite
  length-overwrite new old le =
      omega (arith, length-append new (drop (length new) old), length-drop (length new) old)

  -- What a read puts at the beginning of the chunk, and what it leaves.
  read_length :
      (w : d.Wav)
      → length ((d.read_frames chunk_size w).1) ≡ min chunk_size (f.left w) * d.channels w
  read_length w =
      let n = min chunk_size (f.left w) in
      ap length (f.samples chunk_size w)
      ∙ length-take (n * d.channels w) (f.frames w)
      ∙ omega (arith, f.whole w, mul-le-mul_right (d.channels w) (least (f.left w)))
    where
      least : (k : ℕ) → min chunk_size k ≤ k
      least k = omega arith

  pub length_chunk :
      (w : d.Wav) (chunk : List B)
      → length chunk ≡ chunk_size * d.channels w
      → length (overwrite (d.read_frames chunk_size w).1 chunk) ≡ length chunk
  length_chunk w chunk full =
      length-overwrite (d.read_frames chunk_size w).1 chunk
        (omega (arith, read_length w, mul-le-mul_right (d.channels w) (least (f.left w)), full))
    where
      least : (k : ℕ) → min chunk_size k ≤ chunk_size
      least k = omega arith

  pub get_elem?-chunk :
      (w : d.Wav) (chunk : List B) (c i : ℕ)
      → c < d.channels w
      → i < min chunk_size (f.left w)
      → get_elem? (overwrite (d.read_frames chunk_size w).1 chunk) (c + i * d.channels w)
        ≡ get_elem? (f.frames w) (c + i * d.channels w)
  unfolding overwrite
  get_elem?-chunk w chunk c i lt li =
      let new = (d.read_frames chunk_size w).1 in
      let n = min chunk_size (f.left w) in
      let j = c + i * d.channels w in
      let inside : j < n * d.channels w = interleaved-inside (d.channels w) c i n lt li in
      get_elem?-append_left new (drop (length new) chunk) j (omega (arith, read_length w, inside))
      ∙ ap (λ xs. get_elem? xs j) (f.samples chunk_size w)
      ∙ get_elem?-take (n * d.channels w) j (f.frames w) inside

  pub get_elem?-behind :
      (w : d.Wav) (c i : ℕ)
      → min chunk_size (f.left w) ≤ i
      → get_elem?
          (f.frames ((d.read_frames chunk_size w).2))
          (c + (i - min chunk_size (f.left w)) * d.channels w)
        ≡ get_elem? (f.frames w) (c + i * d.channels w)
  get_elem?-behind w c i le =
      let n = min chunk_size (f.left w) in
      let ch = d.channels w in
      ap (λ xs. get_elem? xs (c + (i - n) * ch)) (f.behind chunk_size w)
      ∙ get_elem?-drop (n * ch) (c + (i - n) * ch) (f.frames w)
      ∙ ap (get_elem? (f.frames w))
          (omega (arith, add-mul n (i - n) ch, ap (λ k. k * ch) (rejoin n i le)))
    where
      rejoin : (n i : ℕ) → n ≤ i → n + (i - n) ≡ i
      rejoin n i le = omega arith
