-- ===== src/Types/Audio/Vorbis/Frames.antt =====
-- What `vorbis::load` makes of a file, for samples that are not floats.
use tklb.Base.{
  ℕ, zero, suc, ◌+◌, ◌-◌, ◌*◌, ◌%◌, ◌^◌, ◌≤◌, ◌<◌, ◌≡◌, refl, ap, sym, ◌∙◌, Bool, true, List,
  Option, some, ltb, ltb→lt, ltb→le, ne→==, lt→ltb, Bool-cases, inl, inr, Run, ok, ◌>>=◌, add32,
  add32_lem, arith,
}
use native.Mathlib.Nat.{mod-eq_of_lt}
use tklb.Types.HeapBuffer.{closest_chunk_size}
use tklb.Types.Audio.AudioBuffer.{AudioBuffer, size, resize, set_arrays}
use tklb.Types.Audio.AudioBuffer.Arrays.{set_arrays-Arranged}
use tklb.Types.Audio.AudioBuffer.Cells.{
  IsValid, cell, size-valid_size, set_valid_size_lem, with_valid_size,
}
use tklb.Types.Audio.AudioBuffer.Copied.{converted}
use tklb.Types.Audio.AudioBuffer.Copy.{size-fits}
use tklb.Types.Audio.AudioBuffer.Resize.{resize-Reshaped}
use tklb.Types.Audio.Vorbis.Stb.{VorbisDecoder, DecodesFrames}
use tklb.Types.Audio.Vorbis.{VorbisLoaded, frames_loop, frames_end, load_vorbis}

-- What `load` leaves: `total` samples of `chan` channels.
pub record VorbisLoads {A B : Type 0} (convert : B → A) (sample : ℕ → ℕ → Option B)
    (total chan rate : ℕ) (r : VorbisLoaded A) : Type 0 where
  pub closed : r.closed ≡ true
  pub sample_rate : r.sample_rate ≡ rate % 2 ^ 16
  pub valid : IsValid r.buffer
  pub channels : r.buffer.channels ≡ chan
  pub valid_size : r.buffer.valid_size ≡ total
  pub cells : (c i : ℕ) → c < chan → i < total → cell r.buffer c i ≡ converted convert (sample c i)

module _ {A B : Type 0} (d : VorbisDecoder B) (convert : B → A) (f : DecodesFrames d) where
  frames_round :
      (fuel : ℕ) (v : d.Vorbis) (total read n m chan : ℕ) (out out' : AudioBuffer A)
      → read < total
      → (d.get_frame v).0 ≡ n
      → (d.get_frame v).1 % 256 ≡ chan
      → set_arrays convert (d.get_frame v).2 n chan 0 read out ≡ ok out'
      → add32 read n ≡ m
      → frames_loop d convert (suc fuel) v total read out
        ≡ frames_loop d convert fuel (d.get_frame v).3 total m out'
  unfolding frames_loop
  frames_round fuel v total read n m chan out out' more e₁ e₂ e₃ e₄ =
      rw (lt→ltb read total more, e₁, e₂, e₃, ◌>>=◌, e₄)

  -- The buffer after the loop, from `read` on.
  record FramesFilled (v : d.Vorbis) (total read : ℕ) (out : AudioBuffer A)
      (r : Run (Option (ℕ × AudioBuffer A))) : Type 0 where
    buffer : AudioBuffer A
    run : r ≡ ok (some (total, buffer))
    valid : IsValid buffer
    channels : buffer.channels ≡ out.channels
    same_size : size buffer ≡ size out
    new :
        (c i : ℕ)
        → c < out.channels
        → i < f.left v
        → cell buffer c (read + i) ≡ converted convert (f.sample v c i)
    old : (c i : ℕ) → c < out.channels → i < read → cell buffer c i ≡ cell out c i

  frames_loop-FramesFilled :
      (fuel : ℕ) (v : d.Vorbis) (total read : ℕ) (out : AudioBuffer A)
      → IsValid out
      → out.channels ≡ d.channels v
      → 0 < d.channels v
      → d.channels v < 256
      → read + f.left v ≡ total
      → total ≤ size out
      → f.left v < fuel
      → FramesFilled v total read out (frames_loop d convert fuel v total read out)
  unfolding frames_loop
  frames_loop-FramesFilled zero v total read out valid e pos narrow whole room enough =
      absurd (omega arith)
  frames_loop-FramesFilled (suc fuel) v total read out valid e pos narrow whole room enough =
      elim (Bool-cases (ltb read total)) [
        | inr over ↦
            let le = ltb→le read total over in
            rw over (record {
              buffer = out;
              run = ap (λ n. ok (some (n, out))) (omega arith);
              valid = valid;
              channels = refl;
              same_size = refl;
              new = λ c i lt li. absurd (omega arith);
              old = λ c i lt li. refl;
            })
        | inl more ↦
            let lt = ltb→lt read total more in
            let g = d.get_frame v in
            let n = g.0 in
            let progress = f.some_left v (omega arith) in
            let le = f.no_more v in
            let b =
              set_arrays-Arranged convert g.2 n read out valid (omega arith) (omega arith)
                (rw e (f.arrays v)) in
            let ch' : d.channels g.3 ≡ d.channels v = f.same_channels v in
            let rest =
              frames_loop-FramesFilled fuel g.3 total (read + n) b.buffer b.valid
                (b.channels ∙ e ∙ sym ch') (omega arith) (omega arith)
                (omega (arith, f.left_behind v)) (omega (arith, b.same_size))
                (omega (arith, f.left_behind v)) in
            record {
              buffer = rest.buffer;
              run =
                  frames_round fuel v total read n (read + n) out.channels out b.buffer lt refl
                    (ap (λ k. k % 256) (f.all_channels v) ∙ mod-eq_of_lt narrow ∙ sym e) b.run
                    (add32_lem read n (omega (arith, size-fits out valid)))
                  ∙ rest.run;
              valid = rest.valid;
              channels = rest.channels ∙ b.channels;
              same_size = rest.same_size ∙ b.same_size;
              new = λ c i lc li. elim (Bool-cases (ltb i n)) [
                | inl early ↦
                    let li' = ltb→lt i n early in
                    rest.old c (read + i) (omega (arith, b.channels)) (omega arith)
                    ∙ b.cells c i lc li'
                    ∙ ap (converted convert) (f.samples v c i (omega arith) li')
                | inr late ↦
                    let le' = ltb→le i n late in
                    ap (cell rest.buffer c) (omega arith)
                    ∙ rest.new c (i - n) (omega (arith, b.channels))
                        (omega (arith, f.left_behind v))
                    ∙ ap (converted convert) (f.behind v c (i - n))
                    ∙ ap (λ k. converted convert (f.sample v c k)) (omega arith)
              ];
              old = λ c i lc li.
                  rest.old c i (omega (arith, b.channels)) (omega arith)
                  ∙ b.others c i lc (omega arith) (inl li);
            }
      ]

  load_vorbis_run :
      (granted : ℕ → Bool) (silence : A) (stride fuel : ℕ) (file : List ℕ)
      (out after : AudioBuffer A) (rate chan : ℕ) (v : d.Vorbis)
      → d.open_memory file ≡ (0, v)
      → d.channels v % 256 ≡ chan
      → frames_loop d convert fuel v
          (d.stream_length v)
          0
          (resize granted silence stride (d.stream_length v) chan out).1
        ≡ ok (some (d.stream_length v, after))
      → load_vorbis d convert granted silence stride fuel file out rate
        ≡ ok (frames_end d convert (d.sample_rate v % 2 ^ 16) (some (d.stream_length v, after)))
  unfolding load_vorbis
  load_vorbis_run granted silence stride fuel file out after rate chan v e₁ e₂ e₃ =
      rw (e₁, e₂, e₃, ◌>>=◌) refl

  -- What `load` gives for an opened file.
  pub record LoadsFrames (v : d.Vorbis) (r : Run (Option (VorbisLoaded A))) : Type 0 where
    pub result : VorbisLoaded A
    pub run : r ≡ ok (some result)
    pub success : result.success ≡ true
    pub loads :
        VorbisLoads convert (f.sample v) (d.stream_length v) (d.channels v) (d.sample_rate v) result

  -- For a file that opens without an error and holds as many samples as the length of its stream, at least
  -- one, of less than 256 channels, where the storage can have them and the sizes fit 32 bits, `load` ends and
  -- gives a well formed buffer of just these samples, each converted, and closes the decoder.
  pub load_vorbis-LoadsFrames :
      (granted : ℕ → Bool) (silence : A) (stride fuel : ℕ) (file : List ℕ) (out : AudioBuffer A)
      (rate : ℕ) (v : d.Vorbis)
      → ((n : ℕ) → granted n ≡ true)
      → IsValid out
      → d.open_memory file ≡ (0, v)
      → f.left v ≡ d.stream_length v
      → 0 < d.stream_length v
      → 0 < d.channels v
      → d.channels v < 256
      → d.stream_length v + stride < 2 ^ 32
      → d.channels v * closest_chunk_size (d.stream_length v) stride < 2 ^ 32
      → d.stream_length v < fuel
      → LoadsFrames v (load_vorbis d convert granted silence stride fuel file out rate)
  unfolding frames_end
  load_vorbis-LoadsFrames granted silence stride fuel file out rate v always valid opened all
        some_sample some_channel narrow small fits enough =
      let total = d.stream_length v in
      let s =
        resize-Reshaped granted silence stride total (d.channels v) out always valid some_channel
          small fits in
      let l =
        frames_loop-FramesFilled fuel v total 0
          (resize granted silence stride total (d.channels v) out).1 s.valid s.channels some_channel
          narrow (omega arith) s.room (omega arith) in
      let room : total ≤ size l.buffer = omega (arith, l.same_size, s.room) in
      let after = record l.buffer { valid_size = total } in
      record {
        result = record {
          success = true;
          buffer = after;
          sample_rate = d.sample_rate v % 2 ^ 16;
          closed = true;
        };
        run =
            load_vorbis_run granted silence stride fuel file out l.buffer rate (d.channels v) v
              opened (mod-eq_of_lt narrow) l.run
            ∙ rw (ne→== total 0 (omega arith), set_valid_size_lem total l.buffer room) refl;
        success = refl;
        loads = record {
          closed = refl;
          sample_rate = refl;
          valid = with_valid_size l.buffer total l.valid room;
          channels = l.channels ∙ s.channels;
          valid_size = refl;
          cells = λ c i lc li. rw (size-valid_size total l.buffer) (
              ap (cell l.buffer c) (omega arith)
              ∙ l.new c i (omega (arith, s.channels)) (omega arith));
        };
      }
