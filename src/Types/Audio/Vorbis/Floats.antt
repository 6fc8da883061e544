-- ===== src/Types/Audio/Vorbis/Floats.antt =====
-- What `vorbis::load` makes of a file, for floats.
use tklb.Base.{
  ℕ, suc, ◌+◌, ◌*◌, ◌%◌, ◌^◌, ◌≤◌, ◌<◌, ◌≡◌, refl, ap, sym, ◌∙◌, Bool, true, List, replicate,
  length-replicate, get_elem?, Option, none, some, leb, ◌==◌, min, Run, ok, ◌>>=◌, arith,
}
use mathlib.Core.Option.{some-injective}
use native.Mathlib.Nat.{mod-eq_of_lt, suc-mul, mul-le-mul_right}
use tklb.Types.HeapBuffer.{closest_chunk_size}
use tklb.Types.Audio.AudioBuffer.{AudioBuffer, size, resize, get_raw, set_valid_size}
use tklb.Types.Audio.AudioBuffer.Cells.{
  IsValid, channel_room, size-valid_size, set_valid_size_lem, with_valid_size,
}
use tklb.Types.Audio.AudioBuffer.Channels.{same_size}
use tklb.Types.Audio.AudioBuffer.Copied.{converted}
use tklb.Types.Audio.AudioBuffer.Raw.{get_raw-Pointed}
use tklb.Types.Audio.AudioBuffer.Resize.{resize-Reshaped}
use tklb.Types.Audio.Vorbis.Frames.{VorbisLoads}
use tklb.Types.Audio.Vorbis.Stb.{VorbisDecoder, DecodesSamples}
use tklb.Types.Audio.Vorbis.{VorbisLoaded, samples_end, load_vorbis_float}

rows : (n c e : ℕ) → c < e → c * n + n ≤ e * n
rows n c e lt = omega (arith, suc-mul c n, mul-le-mul_right n (lt_suc c e lt))
  where
    lt_suc : (c e : ℕ) → c < e → suc c ≤ e
    lt_suc c e h = omega arith

abbrev same : {B : Type 0} → B → B
same x = x

converted-same : {B : Type 0} (x : Option B) → converted same x ≡ x
converted-same none = refl
converted-same (some x) = refl

module _ {B : Type 0} (d : VorbisDecoder B) (f : DecodesSamples d) where
  -- What `load` gives for an opened file.
  pub record LoadsSamples (v : d.Vorbis) (r : Run (VorbisLoaded B)) : Type 0 where
    pub result : VorbisLoaded B
    pub run : r ≡ ok result
    pub success : result.success ≡ leb (d.stream_length v) (f.left v)
    pub loads :
        VorbisLoads same
          (f.sample v)
          (min (d.stream_length v) (f.left v))
          (d.channels v)
          (d.sample_rate v)
          result

  all_of : (total left : ℕ) → (min total left == total) ≡ leb total left
  all_of total left = ground arith

  load_vorbis_float_run :
      (granted : ℕ → Bool) (silence : B) (stride nowhere : ℕ) (file : List ℕ) (out : AudioBuffer B)
      (rate chan : ℕ) (v : d.Vorbis) (pointers : List ℕ)
      → d.open_memory file ≡ (0, v)
      → d.channels v % 256 ≡ chan
      → get_raw
          (replicate (d.channels v) nowhere)
          (resize granted silence stride (d.stream_length v) chan out).1
        ≡ ok pointers
      → load_vorbis_float d granted silence stride nowhere file out rate
        ≡ ok (
            samples_end d
              (d.sample_rate v % 2 ^ 16)
              (d.stream_length v)
              (resize granted silence stride (d.stream_length v) chan out).1
              (d.get_samples
                (d.channels v)
                pointers
                (d.stream_length v)
                (resize granted silence stride (d.stream_length v) chan out).1.samples
                v))
  unfolding load_vorbis_float
  load_vorbis_float_run granted silence stride nowhere file out rate chan v pointers e₁ e₂ e₃ =
      rw (e₁, e₂, e₃, ◌>>=◌) refl

  -- For a file that opens without an error and has at least one and less than 256 channels, where the storage
  -- can have the samples of the stream and the sizes fit 32 bits, `load` gives a well formed buffer of the
  -- samples that the file holds, at most as many as the length of its stream, says whether these are all of
  -- them, and closes the decoder.
  pub load_vorbis_float-LoadsSamples :
      (granted : ℕ → Bool) (silence : B) (stride nowhere : ℕ) (file : List ℕ) (out : AudioBuffer B)
      (rate : ℕ) (v : d.Vorbis)
      → ((n : ℕ) → granted n ≡ true)
      → IsValid out
      → d.open_memory file ≡ (0, v)
      → 0 < d.channels v
      → d.channels v < 256
      → d.stream_length v + stride < 2 ^ 32
      → d.channels v * closest_chunk_size (d.stream_length v) stride < 2 ^ 32
      → LoadsSamples v (load_vorbis_float d granted silence stride nowhere file out rate)
  unfolding samples_end
  load_vorbis_float-LoadsSamples granted silence stride nowhere file out rate v always valid opened
        some_channel narrow small fits =
      let total = d.stream_length v in
      let chan = d.channels v in
      let s =
        resize-Reshaped granted silence stride total chan out always valid some_channel small
          fits in
      let out' = (resize granted silence stride total chan out).1 in
      let p =
        get_raw-Pointed out' (replicate chan nowhere) s.valid
          (omega (arith, s.channels, length-replicate chan nowhere)) in
      let g = d.get_samples chan p.result total out'.samples v in
      let after = record out' { samples = g.1 } in
      let n = min total (f.left v) in
      let at : (c q : ℕ) → c < chan → get_elem? p.result c ≡ some q → q ≡ c * size out' =
        λ c q lt e.
          some-injective q (c * size out')
            (sym e ∙ p.pointers c (omega arith) (omega (arith, s.channels))) in
      let kept : size after ≡ size out' =
        same_size out' after refl (f.same_length chan total p.result out'.samples v) in
      let after-IsValid : IsValid after = record {
        total =
            f.same_length chan total p.result out'.samples v
            ∙ s.valid.total
            ∙ ap (λ k. out'.channels * k) (sym kept);
        fits = omega (arith, f.same_length chan total p.result out'.samples v, s.valid.fits);
        valid = omega (arith, kept, s.valid.valid);
      } in
      let room : n ≤ size after = omega (arith, kept, s.room) in
      let ended : set_valid_size n after ≡ record after { valid_size = n } =
        set_valid_size_lem n after room in
      record {
        result = record {
          success = leb total (f.left v);
          buffer = record after { valid_size = n };
          sample_rate = d.sample_rate v % 2 ^ 16;
          closed = true;
        };
        run =
            load_vorbis_float_run granted silence stride nowhere file out rate chan v p.result
              opened (mod-eq_of_lt narrow) p.run
            ∙ rw (f.got chan total p.result out'.samples v, all_of total (f.left v), ended) refl;
        success = refl;
        loads = record {
          closed = refl;
          sample_rate = refl;
          valid = with_valid_size after n after-IsValid room;
          channels = s.channels;
          valid_size = refl;
          cells = λ c i lc li.
              rw (size-valid_size n after, kept, converted-same (f.sample v c i))
                (f.written total p.result out'.samples v
                  (λ c e q r lt le eq er.
                    omega (
                      arith,
                      at c q (omega arith) eq,
                      at e r le er,
                      rows (size out') c e lt,
                      s.room,
                    ))
                  (λ c q lt eq. omega (
                    arith,
                    at c q lt eq,
                    channel_room out' c s.valid (omega (arith, s.channels)),
                    s.room,
                  ))
                  c (c * size out') i lc (p.pointers c (omega arith) (omega (arith, s.channels)))
                  li);
        };
      }
