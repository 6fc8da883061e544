-- ===== src/Types/Audio/ConvolverBrute/Process.antt =====
-- `process` computes the convolution.
use tklb.Base.{
  ℕ, zero, suc, ◌+◌, ◌*◌, ◌%◌, ◌≤◌, ◌<◌, ◌≡◌, ◌≢◌, refl, ap, sym, ◌∙◌, List, [], ◌∷◌, length,
  get_elem?, get_or, get_elem?_of_lt, Option, some, ok, ◌>>=◌, arith, ltb, ◌==◌, ne→==,
  if◌then◌else◌, Bool-cases, inl, inr, lt→ltb, le→ltb, ==→eq, ==→ne,
}
use mathlib.Core.Option
use mathlib.Core.Option.{some-injective}
use native.Mathlib.Nat.{mod-lt, zero-mul}
use tklb.Types.Audio.AudioBuffer.{AudioBuffer, size, start}
use tklb.Types.Audio.AudioBuffer.Cells.{IsValid, cell-inside, start_lem, channel_room, cells-ne}
use tklb.Types.Audio.AudioBuffer.Channels.{Updated, within, each_channel-from_zero, same_size}
use tklb.Types.Audio.AudioBuffer.Copy.{size-fits, size_of_none}
use tklb.Types.Audio.ConvolverBrute.{remainder, frames, process}
use tklb.Types.Audio.ConvolverBrute.Frames.{HasZero, frames-Framed}
use tklb.Types.Audio.ConvolverBrute.Sum.{convolved}

remainder_lem : (c d : ℕ) → 0 < d → remainder c d ≡ ok (c % d)
unfolding remainder
remainder_lem c d pos = rw (ne→== d 0 (omega arith))

get_or_lem :
    {A : Type 0} (xs : List A) (i : ℕ) (z : A)
    → i < length xs
    → get_elem? xs i ≡ some (get_or xs i z)
get_or_lem [] i z lt = absurd (omega arith)
get_or_lem (x ∷ xs) zero z lt = refl
get_or_lem (x ∷ xs) (suc i) z lt = get_or_lem xs i z (omega arith)

-- A buffer with room has channels.
channels_pos : {A : Type 0} (b : AudioBuffer A) → IsValid b → 0 < size b → 0 < b.channels
channels_pos b v room = elim (Bool-cases (b.channels == 0)) [
  | inl absent ↦
      let e : b.channels ≡ 0 = ==→eq b.channels 0 absent in
      let empty : length b.samples ≡ 0 = v.total ∙ ap (λ k. k * size b) e ∙ zero-mul (size b) in
      absurd (omega (arith, size_of_none b empty))
  | inr some_channel ↦ omega (arith, ==→ne b.channels 0 some_channel)
]

module _ {A : Type 0} (plus times : A → A → A) (nothing : A)
    (laws : HasZero plus times nothing) where
  -- The samples of a channel up to `n`, and zero behind.
  abbrev pub samples_up_to : ℕ → AudioBuffer A → ℕ → ℕ → A
  samples_up_to n b c m = if ltb m n then get_or b.samples (c * size b + m) nothing else nothing

  samples-get :
      (n : ℕ) (b : AudioBuffer A) (c m : ℕ)
      → IsValid b
      → n ≤ size b
      → c < b.channels
      → m < n
      → get_elem? b.samples (start b c + m) ≡ some (samples_up_to n b c m)
  samples-get n b c m v le lt inside =
      rw (start_lem b c v lt, lt→ltb m n inside)
        (get_or_lem b.samples (c * size b + m) nothing (cell-inside b c m v lt (omega arith)))

  samples-behind : (n : ℕ) (b : AudioBuffer A) (c m : ℕ) → n ≤ m → samples_up_to n b c m ≡ nothing
  samples-behind n b c m le = rw (le→ltb m n le)

  -- What a channel of the output becomes.
  abbrev pub added : AudioBuffer A → AudioBuffer A → ℕ → ℕ → Option A → Option A
  added ir sound c i = Option.map (
      convolved plus times (samples_up_to (size ir) ir (c % ir.channels))
        (samples_up_to sound.valid_size sound (c % sound.channels)) i (suc i) 0)

  channel_round :
      (ir sound : AudioBuffer A) (c n : ℕ) (b : AudioBuffer A)
      → IsValid ir
      → IsValid sound
      → IsValid b
      → c < b.channels
      → n ≡ size b
      → 0 < size ir
      → 0 < sound.valid_size
      → Updated (added ir sound) b c (c + 1) (
          remainder c sound.channels >>= λ in_channel. remainder c ir.channels >>= λ ir_channel.
          frames plus times n 0
            (size ir)
            sound.valid_size
            ir.samples
            (start ir ir_channel)
            sound.samples
            (start sound in_channel)
            (start b c)
            b.samples
          >>= λ samples. ok (record b { samples = samples }))
  channel_round ir sound c n b vi vs v lt e response input =
      let ci = mod-lt c (channels_pos ir vi response) in
      let cs = mod-lt c (channels_pos sound vs (omega (arith, vs.valid))) in
      let w =
        frames-Framed plus times nothing laws (samples_up_to (size ir) ir (c % ir.channels))
          (samples_up_to sound.valid_size sound (c % sound.channels)) (size ir) sound.valid_size
          ir.samples (start ir (c % ir.channels)) sound.samples (start sound (c % sound.channels))
          response input (size-fits ir vi) (omega (arith, vs.valid, size-fits sound vs))
          (λ m l. samples-get (size ir) ir (c % ir.channels) m vi (omega arith) ci l)
          (samples-behind (size ir) ir (c % ir.channels))
          (λ m l. samples-get sound.valid_size sound (c % sound.channels) m vs vs.valid cs l)
          (samples-behind sound.valid_size sound (c % sound.channels)) n 0 (start b c) b.samples
          (omega (arith, size-fits b v))
          (omega (arith, start_lem b c v lt, channel_room b c v lt)) in
      let after = record b { samples = w.result } in
      let kept : size after ≡ size b = same_size b after refl w.same_length in
      record {
        buffer = after;
        run = rw (
          remainder_lem c sound.channels (channels_pos sound vs (omega (arith, vs.valid))),
          ◌>>=◌,
          remainder_lem c ir.channels (channels_pos ir vi response),
          ◌>>=◌,
          w.run,
        );
        same_channels = refl;
        same_valid = refl;
        same_length = w.same_length;
        cells = λ d i l inside. rw kept (elim (Bool-cases (within c (c + 1) d)) [
          | inl here ↦
              let same : d ≡ c = ground arith in
              let (y, is_y) =
                get_elem?_of_lt b.samples (c * size b + i) (cell-inside b c i v lt inside) in
              let place : start b c + i ≡ c * size b + i = omega (arith, start_lem b c v lt) in
              rw (here, same, is_y)
                (ap (get_elem? w.result) (sym place)
                  ∙ w.written i y (omega arith) (omega arith)
                      (ap (get_elem? b.samples) place ∙ is_y))
          | inr elsewhere ↦
              let differs : d ≢ c = λ e'. ground arith in
              rw elsewhere (
                w.others (d * size b + i) (λ m le lm e'.
                  cells-ne (size b) d i c m inside (omega arith) (inl differs)
                    (omega (arith, e', start_lem b c v lt))))
        ]);
      }

  -- `process` adds to each sample of the output the convolution of the response with the valid samples
  -- of the input, where the three are well formed, the response has samples and the input has valid samples;
  -- a channel that they do not have is one
  -- that they have again.
  pub process-Updated :
      (ir sound out : AudioBuffer A)
      → IsValid ir
      → IsValid sound
      → IsValid out
      → 0 < size ir
      → 0 < sound.valid_size
      → Updated (added ir sound) out 0 out.channels (process plus times ir sound out)
  unfolding process
  process-Updated ir sound out vi vs vo response input =
      each_channel-from_zero _ _ out.channels out vo (λ c b' hi v' ec el.
        channel_round ir sound c (size out) b' vi vs v' (omega arith) (sym (same_size out b' ec el))
          response input)
