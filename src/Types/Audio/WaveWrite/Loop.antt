-- ===== src/Types/Audio/WaveWrite/Loop.antt =====
-- The loop of `Wave::write` hands over every valid frame, once and in order.
use tklb.Base.{
  Bool, ℕ, zero, suc, ◌+◌, ◌-◌, ◌*◌, ◌≤◌, ◌<◌, ◌≡◌, refl, ap, subst, ◌∙◌, true, List, ◌++◌, length,
  length-append, length-take, take, get_elem?, get_elem?-append_left, get_elem?-append_right,
  get_elem?-take, Option, some, ltb, ltb→lt, ltb→le, Bool-cases, inl, inr, min, Run, ok, ◌>>=◌,
  add64, arith,
}
use native.Mathlib.Nat.{mod-eq_of_lt, add-mul, mul-le-mul_right}
use tklb.Types.Audio.AudioBuffer.{AudioBuffer, put_interleaved}
use tklb.Types.Audio.AudioBuffer.Cells.{IsValid, cell}
use tklb.Types.Audio.AudioBuffer.Copied.{converted}
use tklb.Types.Audio.AudioBuffer.Copy.{size-fits}
use tklb.Types.Audio.AudioBuffer.Deinterleave.{interleaved-inside}
use tklb.Types.Audio.AudioBuffer.Interleave.{emitted, Emitted, put_interleaved-Emitted}
use tklb.Types.Audio.WaveWrite.DrWav.{WritesFrames}
use tklb.Types.Audio.WaveWrite.{write_chunk_size, write_loop}

module _ {A S W : Type 0} (convert : A → S) (write_frames : ℕ → List S → W → ℕ × W)
    (sound : AudioBuffer A) (width : ℕ) (bits : W → ℕ) (has_room : ℕ → W → Bool)
    (d : WritesFrames sound.channels width bits has_room write_frames)
    (granted : (n : ℕ) (w : W) → has_room n w ≡ true) where
  -- The library, open for samples of this width, has the first `n` frames of the sound, interleaved, and
  -- nothing else.
  pub record HasFrames (n : ℕ) (w : W) : Type 0 where
    pub wide : bits w ≡ width
    pub whole : length (d.samples w) ≡ n * sound.channels
    pub cells :
        (c i : ℕ)
        → c < sound.channels
        → i < n
        → get_elem? (d.samples w) (c + i * sound.channels) ≡ converted convert (cell sound c i)

  write_frames-HasFrames :
      (target : List S) (written : ℕ) (w : W)
      → (e : Emitted convert target write_chunk_size written sound)
      → emitted convert sound write_chunk_size written * sound.channels ≤ length target
      → HasFrames written w
      → HasFrames
          (written + emitted convert sound write_chunk_size written)
          (write_frames (emitted convert sound write_chunk_size written) e.result w).1
  write_frames-HasFrames target written w e room h =
      let n = emitted convert sound write_chunk_size written in
      let ch = sound.channels in
      let new = take (n * ch) e.result in
      let all = d.appended n e.result w h.wide (granted n w) in
      let len : length new ≡ n * ch = omega (arith, length-take (n * ch) e.result, e.same_length) in
      record {
        wide = d.same_bits n e.result w ∙ h.wide;
        whole =
            ap length all
            ∙ omega (arith, length-append (d.samples w) new, h.whole, add-mul written n ch);
        cells = λ c i lc li. elim (Bool-cases (ltb i written)) [
          | inl early ↦
              let lt = ltb→lt i written early in
              ap (λ xs. get_elem? xs (c + i * ch)) all
              ∙ get_elem?-append_left (d.samples w) new (c + i * ch)
                  (omega (arith, h.whole, interleaved-inside ch c i written lc lt))
              ∙ h.cells c i lc lt
          | inr late ↦
              let le = ltb→le i written late in
              let lt : i - written < n = omega arith in
              let place : c + i * ch ≡ length (d.samples w) + (c + (i - written) * ch) = omega (
                arith,
                h.whole,
                add-mul written (i - written) ch,
                ap (λ k. k * ch) (rejoin written i le),
              ) in
              ap (λ xs. get_elem? xs (c + i * ch)) all
              ∙ ap (get_elem? (d.samples w ++ new)) place
              ∙ get_elem?-append_right (d.samples w) new (c + (i - written) * ch)
              ∙ get_elem?-take (n * ch) (c + (i - written) * ch) e.result
                  (interleaved-inside ch c (i - written) n lc lt)
              ∙ e.cells c (i - written) lc lt
              ∙ ap (λ k. converted convert (cell sound c k)) (rejoin written i le)
        ];
      }
    where
      rejoin : (n i : ℕ) → n ≤ i → n + (i - n) ≡ i
      rejoin n i le = omega arith

  write_round :
      (fuel written n m : ℕ) (w : W) (target result : List S)
      → ltb written sound.valid_size ≡ true
      → put_interleaved convert target write_chunk_size written 0 sound ≡ ok (n, result)
      → (write_frames n result w).0 ≡ n
      → add64 written n ≡ m
      → write_loop convert write_frames (suc fuel) w target written sound
        ≡ write_loop convert write_frames fuel (write_frames n result w).1 result m sound
  unfolding write_loop
  write_round fuel written n m w target result more e₁ e₂ e₃ = rw (more, e₁, ◌>>=◌, e₂, e₃)

  -- How the loop ends.
  pub record Encodes (r : Run (Option W)) : Type 0 where
    pub wav : W
    pub run : r ≡ ok (some wav)
    pub frames : HasFrames sound.valid_size wav

  pub write_loop-Encodes :
      (fuel : ℕ) (w : W) (target : List S) (written : ℕ)
      → IsValid sound
      → 0 < sound.channels
      → write_chunk_size * sound.channels ≤ length target
      → written ≤ sound.valid_size
      → sound.valid_size < written + fuel
      → HasFrames written w
      → Encodes (write_loop convert write_frames fuel w target written sound)
  unfolding write_loop
  write_loop-Encodes zero w target written v pos room le enough h = absurd (omega arith)
  write_loop-Encodes (suc fuel) w target written v pos room le enough h =
      elim (Bool-cases (ltb written sound.valid_size)) [
        | inr over ↦
            let same : written ≡ sound.valid_size =
              omega (arith, ltb→le written sound.valid_size over) in
            rw over (record { wav = w; run = refl; frames = subst (λ n. HasFrames n w) same h })
        | inl more ↦
            let lt = ltb→lt written sound.valid_size more in
            let n = emitted convert sound write_chunk_size written in
            let fits : n * sound.channels ≤ length target =
              omega (arith, mul-le-mul_right sound.channels (least (sound.valid_size - written))) in
            let e =
              put_interleaved-Emitted convert target write_chunk_size written sound v pos le fits in
            let next = (write_frames n e.result w).1 in
            let rest =
              write_loop-Encodes fuel next e.result (written + n) v pos
                (omega (arith, e.same_length)) (omega arith) (omega arith)
                (write_frames-HasFrames target written w e fits h) in
            record {
              wav = rest.wav;
              run =
                  write_round fuel written n (written + n) w target e.result more e.run
                    (d.taken n e.result w h.wide (granted n w))
                    (mod-eq_of_lt (omega (arith, v.valid, size-fits sound v)))
                  ∙ rest.run;
              frames = rest.frames;
            }
      ]
    where
      least : (k : ℕ) → min k write_chunk_size ≤ write_chunk_size
      least k = omega arith
