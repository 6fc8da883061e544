-- ===== src/Types/Audio/Wave/Load.antt =====
-- What `Wave::load` makes of a file that holds what its header says.
use tklb.Base.{
  ℕ, zero, suc, ◌+◌, ◌-◌, ◌*◌, ◌%◌, ◌^◌, ◌≤◌, ◌<◌, ◌≡◌, refl, ap, sym, ◌∙◌, Bool, true, List,
  length, length-replicate, replicate, get_elem?, Option, some, ltb, ltb→lt, ltb→le, ne→==,
  Bool-cases, inl, inr, min, Run, ok, ◌>>=◌, add32_lem, arith,
}
use native.Mathlib.Nat.{mod-eq_of_lt, mul-le-mul_right}
use tklb.Types.HeapBuffer.{closest_chunk_size}
use tklb.Types.Audio.AudioBuffer.{AudioBuffer, size, resize, set_from_interleaved}
use tklb.Types.Audio.AudioBuffer.Cells.{
  IsValid, cell, size-valid_size, set_valid_size_lem, with_valid_size,
}
use tklb.Types.Audio.AudioBuffer.Copied.{converted}
use tklb.Types.Audio.AudioBuffer.Copy.{size-fits}
use tklb.Types.Audio.AudioBuffer.Deinterleave.{set_from_interleaved-Deinterleaved}
use tklb.Types.Audio.AudioBuffer.Resize.{resize-Reshaped}
use tklb.Types.Audio.Wave.Chunk.{load_round, length_chunk, get_elem?-chunk, get_elem?-behind}
use tklb.Types.Audio.Wave.DrWav.{Decoder, ReadsFrames}
use tklb.Types.Audio.Wave.{
  Loaded, load_loop, load_end, load_opened, load_wave, overwrite, chunk_size,
}

module _ {A B : Type 0} (d : Decoder B) (convert : B → A) (f : ReadsFrames d) where
  -- The buffer after the loop, from `read` frames on.
  pub record Filled (w : d.Wav) (read : ℕ) (out : AudioBuffer A)
      (r : Run (Option (ℕ × AudioBuffer A))) : Type 0 where
    pub buffer : AudioBuffer A
    pub run : r ≡ ok (some (read + f.left w, buffer))
    pub valid : IsValid buffer
    pub channels : buffer.channels ≡ out.channels
    pub same_size : size buffer ≡ size out
    pub new :
        (c i : ℕ)
        → c < out.channels
        → i < f.left w
        → cell buffer c (read + i)
          ≡ converted convert (get_elem? (f.frames w) (c + i * out.channels))
    pub old : (c i : ℕ) → c < out.channels → i < read → cell buffer c i ≡ cell out c i

  pub load_loop-Filled :
      (fuel : ℕ) (w : d.Wav) (chunk : List B) (read : ℕ) (out : AudioBuffer A)
      → IsValid out
      → out.channels ≡ d.channels w
      → d.channels w < 256
      → read + f.left w ≡ d.total w
      → d.total w ≤ size out
      → length chunk ≡ chunk_size * d.channels w
      → f.left w < fuel
      → Filled w read out (load_loop d convert fuel w chunk read out)
  unfolding load_loop
  load_loop-Filled zero w chunk read out v e narrow whole room full enough = absurd (omega arith)
  load_loop-Filled (suc fuel) w chunk read out v e narrow whole room full enough =
      elim (Bool-cases (ltb read (d.total w))) [
        | inr over ↦
            let le = ltb→le read (d.total w) over in
            rw over (record {
              buffer = out;
              run = ap (λ n. ok (some (n, out))) (omega arith);
              valid = v;
              channels = refl;
              same_size = refl;
              new = λ c i lt li. absurd (omega arith);
              old = λ c i lt li. refl;
            })
        | inl more ↦
            let lt = ltb→lt read (d.total w) more in
            let n = min chunk_size (f.left w) in
            let ch = d.channels w in
            let g = d.read_frames chunk_size w in
            let chunk' = overwrite g.1 chunk in
            let full' = length_chunk d convert f w chunk full in
            let b =
              set_from_interleaved-Deinterleaved convert chunk' n read out v (omega arith)
                (rw e (omega (arith, full', full, mul-le-mul_right ch (least (f.left w))))) in
            let left' : f.left g.2 ≡ f.left w - n = f.left_behind chunk_size w in
            let ch' : d.channels g.2 ≡ ch = f.same_channels chunk_size w in
            let total' : d.total g.2 ≡ d.total w = f.same_total chunk_size w in
            let rest =
              load_loop-Filled fuel g.2 chunk' (read + n) b.buffer b.valid
                (b.channels ∙ e ∙ sym ch') (omega arith) (omega arith) (omega (arith, b.same_size))
                (omega (arith, full', full, ch')) (omega arith) in
            record {
              buffer = rest.buffer;
              run =
                  load_round d convert f fuel w chunk read n (read + n) ch out b.buffer more
                    (f.got chunk_size w) (mod-eq_of_lt narrow)
                    (ap (λ k. set_from_interleaved convert chunk' n k 0 read out) (sym e) ∙ b.run)
                    (add32_lem read n (omega (arith, size-fits out v)))
                  ∙ rest.run
                  ∙ ap (λ k. ok (some (k, rest.buffer))) (omega arith);
              valid = rest.valid;
              channels = rest.channels ∙ b.channels;
              same_size = rest.same_size ∙ b.same_size;
              new = λ c i lc li. elim (Bool-cases (ltb i n)) [
                | inl early ↦
                    let li' = ltb→lt i n early in
                    rest.old c (read + i) (omega (arith, b.channels)) (omega arith)
                    ∙ b.cells c i lc li'
                    ∙ rw e (
                        ap (converted convert)
                          (get_elem?-chunk d convert f w chunk c i (omega arith) li'))
                | inr late ↦
                    let le = ltb→le i n late in
                    ap (cell rest.buffer c) (omega arith)
                    ∙ rest.new c (i - n) (omega (arith, b.channels)) (omega arith)
                    ∙ ap (λ k. converted convert (get_elem? (f.frames g.2) (c + (i - n) * k)))
                        (b.channels ∙ e)
                    ∙ ap (converted convert) (get_elem?-behind d convert f w c i le)
                    ∙ ap (λ k. converted convert (get_elem? (f.frames w) (c + i * k))) (sym e)
              ];
              old = λ c i lc li.
                  rest.old c i (omega (arith, b.channels)) (omega arith)
                  ∙ b.others c i lc (omega arith) (inl li);
            }
      ]
    where
      least : (k : ℕ) → min chunk_size k ≤ chunk_size
      least k = omega arith

  -- What `load` gives for an opened file.
  pub record Loads (w : d.Wav) (r : Run (Option (Loaded A))) : Type 0 where
    pub result : Loaded A
    pub run : r ≡ ok (some result)
    pub success : result.success ≡ true
    pub uninit : result.uninit ≡ true
    pub sample_rate : result.sample_rate ≡ d.sample_rate w % 2 ^ 16
    pub valid : IsValid result.buffer
    pub channels : result.buffer.channels ≡ d.channels w
    pub valid_size : result.buffer.valid_size ≡ d.total w
    pub cells :
        (c i : ℕ)
        → c < d.channels w
        → i < d.total w
        → cell result.buffer c i ≡ converted convert (get_elem? (f.frames w) (c + i * d.channels w))

  load_wave_run :
      (granted : ℕ → Bool) (silence : A) (stride : ℕ) (quiet : B) (fuel : ℕ) (file : List ℕ)
      (out after : AudioBuffer A) (rate total chan : ℕ) (w : d.Wav) (r : Loaded A)
      → d.open_memory file ≡ some w
      → d.total w % 2 ^ 32 ≡ total
      → d.channels w % 256 ≡ chan
      → load_loop d convert fuel w
          (replicate (chunk_size * d.channels w) quiet)
          0
          (resize granted silence stride total chan out).1
        ≡ ok (some (total, after))
      → load_end d convert (d.sample_rate w % 2 ^ 16) (some (total, after)) ≡ some r
      → load_wave d convert granted silence stride quiet fuel file out rate ≡ ok (some r)
  unfolding load_wave load_opened
  load_wave_run granted silence stride quiet fuel file out after rate total chan w r e₁ e₂ e₃ e₄
        e₅ =
      rw (e₁, e₂, e₃, e₄, ◌>>=◌, e₅)

  -- For a file that opens and holds all the frames its header says, at least one, of less than 256
  -- channels, where the storage can have them and the sizes fit 32 bits, `load` ends and gives a well
  -- formed buffer of just these frames, each sample converted, and closes the decoder.
  pub load_wave-Loads :
      (granted : ℕ → Bool) (silence : A) (stride : ℕ) (quiet : B) (fuel : ℕ) (file : List ℕ)
      (out : AudioBuffer A) (rate : ℕ) (w : d.Wav)
      → ((n : ℕ) → granted n ≡ true)
      → IsValid out
      → d.open_memory file ≡ some w
      → f.left w ≡ d.total w
      → 0 < d.total w
      → 0 < d.channels w
      → d.channels w < 256
      → d.total w + stride < 2 ^ 32
      → d.channels w * closest_chunk_size (d.total w) stride < 2 ^ 32
      → d.total w < fuel
      → Loads w (load_wave d convert granted silence stride quiet fuel file out rate)
  unfolding load_end
  load_wave-Loads granted silence stride quiet fuel file out rate w always v opened all some_frame
        some_channel narrow small fits enough =
      let s =
        resize-Reshaped granted silence stride (d.total w) (d.channels w) out always v some_channel
          small fits in
      let l =
        load_loop-Filled fuel w (replicate (chunk_size * d.channels w) quiet) 0
          (resize granted silence stride (d.total w) (d.channels w) out).1 s.valid s.channels narrow
          (omega arith) s.room (length-replicate (chunk_size * d.channels w) quiet) (omega arith) in
      let room : d.total w ≤ size l.buffer = omega (arith, l.same_size, s.room) in
      let after = record l.buffer { valid_size = d.total w } in
      record {
        result = record {
          success = true;
          buffer = after;
          sample_rate = d.sample_rate w % 2 ^ 16;
          uninit = true;
        };
        run =
            load_wave_run granted silence stride quiet fuel file out l.buffer rate (d.total w)
              (d.channels w) w
              (record {
                success = true;
                buffer = after;
                sample_rate = d.sample_rate w % 2 ^ 16;
                uninit = true;
              })
              opened (mod-eq_of_lt (omega arith)) (mod-eq_of_lt narrow)
              (l.run ∙ ap (λ k. ok (some (k, l.buffer))) (omega arith))
              (rw (ne→== (d.total w) 0 (omega arith), set_valid_size_lem (d.total w) l.buffer room)
                refl);
        success = refl;
        uninit = refl;
        sample_rate = refl;
        valid = with_valid_size l.buffer (d.total w) l.valid room;
        channels = l.channels ∙ s.channels;
        valid_size = refl;
        cells = λ c i lc li. rw (size-valid_size (d.total w) l.buffer) (
            ap (cell l.buffer c) (omega arith)
            ∙ l.new c i (omega (arith, s.channels)) (omega arith)
            ∙ ap (λ k. converted convert (get_elem? (f.frames w) (c + i * k))) s.channels);
      }
