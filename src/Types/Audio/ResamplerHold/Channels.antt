-- ===== src/Types/Audio/ResamplerHold/Channels.antt =====
-- The loop over the channels holds the samples in each.
use tklb.Base.{
  ℕ, zero, suc, ◌+◌, ◌*◌, ◌≤◌, ◌<◌, ◌≡◌, ◌≢◌, refl, ap, sym, ◌∙◌, ◌⊎◌, inl, inr, get_elem?, ◌==◌,
  ==→eq, ==→ne, Bool-cases, Run, ok, arith,
}
use tklb.Types.Audio.AudioBuffer.{AudioBuffer, size, start}
use tklb.Types.Audio.AudioBuffer.Cells.{IsValid, cell, start_lem, channel_room, cells-ne}
use tklb.Types.Audio.AudioBuffer.Channels.{same_size}
use tklb.Types.Audio.ResamplerHold.{hold_channels}
use tklb.Types.Audio.ResamplerHold.Process.{hold_from-Held, end_of}

pub end_of_le :
    (closest : ℕ → ℕ) (k output count_in : ℕ) → end_of closest k output count_in ≤ output + k
unfolding end_of
end_of_le closest zero output count_in = omega arith
end_of_le closest (suc k) output count_in =
    ground (arith, end_of_le closest k (output + 1) count_in)

module _ {A : Type 0} (closest : ℕ → ℕ) (sound : AudioBuffer A) where
  -- The output after the loop over `k` channels from `c` on.
  pub record HeldChannels (k c n count_out : ℕ) (out : AudioBuffer A) (r : Run (ℕ × AudioBuffer A))
      : Type 0 where
    pub buffer : AudioBuffer A
    pub count : ℕ
    pub run : r ≡ ok (count, buffer)
    pub counted : (count_out ≡ n) ⊎ (0 < k) → count ≡ n
    pub valid : IsValid buffer
    pub channels : buffer.channels ≡ out.channels
    pub size_kept : size buffer ≡ size out
    pub held : (d m : ℕ) → c ≤ d → d < c + k → m < n → cell buffer d m ≡ cell sound d (closest m)
    pub others :
        (d m : ℕ)
        → d < out.channels
        → m < size out
        → (d < c) ⊎ (c + k ≤ d) ⊎ (n ≤ m)
        → cell buffer d m ≡ cell out d m

  pub hold_channels-HeldChannels :
      (k c n count_out : ℕ) (out : AudioBuffer A)
      → IsValid sound
      → IsValid out
      → c + k ≤ sound.channels
      → c + k ≤ out.channels
      → end_of closest (size out) 0 sound.valid_size ≡ n
      → HeldChannels k c n count_out out (hold_channels closest k c count_out sound out)
  unfolding hold_channels
  hold_channels-HeldChannels zero c n count_out out vs v les leo e = record {
    buffer = out;
    count = count_out;
    run = refl;
    counted = λ h. elim h [ inl same ↦ same | inr pos ↦ absurd (omega arith) ];
    valid = v;
    channels = refl;
    size_kept = refl;
    held = λ d m le lt lm. absurd (omega arith);
    others = λ d m ld lm away. refl;
  }
  hold_channels-HeldChannels (suc k) c n count_out out vs v les leo e =
      let at_sound = start_lem sound c vs (omega arith) in
      let at_out = start_lem out c v (omega arith) in
      let w =
        hold_from-Held closest (size out) 0 sound.valid_size sound.samples (start sound c)
          (start out c) out.samples
          (omega (arith, at_sound, channel_room sound c vs (omega arith), vs.valid))
          (omega (arith, at_out, channel_room out c v (omega arith))) in
      let next = record out { samples = w.result } in
      let kept : size next ≡ size out = same_size out next refl w.same_length in
      let next-IsValid : IsValid next = record {
        total = w.same_length ∙ v.total ∙ ap (λ s. out.channels * s) (sym kept);
        fits = omega (arith, w.same_length, v.fits);
        valid = omega (arith, kept, v.valid);
      } in
      let ended : w.end ≡ n = w.ends ∙ e in
      let short : n ≤ size out =
        omega (arith, e, end_of_le closest (size out) 0 sound.valid_size) in
      let rest =
        hold_channels-HeldChannels k (c + 1) n w.end next vs next-IsValid (omega arith)
          (omega arith) (ap (λ s. end_of closest s 0 sound.valid_size) kept ∙ e) in
      let now : (m : ℕ) → m < n → cell next c m ≡ cell sound c (closest m) = λ m lm.
        ap (λ s. get_elem? w.result (c * s + m)) kept
        ∙ ap (λ s. get_elem? w.result (s + m)) (sym at_out)
        ∙ w.held m (omega arith) (omega arith)
        ∙ ap (λ s. get_elem? sound.samples (s + closest m)) at_sound in
      record {
        buffer = rest.buffer;
        count = rest.count;
        run = rw w.run rest.run;
        counted = λ h. rest.counted (inl ended);
        valid = rest.valid;
        channels = rest.channels;
        size_kept = rest.size_kept ∙ kept;
        held = λ d m le lt lm. elim (Bool-cases (d == c)) [
          | inl here ↦
              let same = ==→eq d c here in
              rest.others d m (omega arith) (omega (arith, kept)) (inl (omega arith))
              ∙ ap (λ e. cell next e m) same
              ∙ now m lm
              ∙ ap (λ e. cell sound e (closest m)) (sym same)
          | inr later ↦ rest.held d m (omega (arith, ==→ne d c later)) (omega arith) lm
        ];
        others = λ d m ld lm away.
            rest.others d m ld (omega (arith, kept)) (still c k d m n away)
            ∙ ap (λ s. get_elem? w.result (d * s + m)) kept
            ∙ w.others (d * size out + m) (λ j le lj same.
              cells-ne (size out) d m c j lm (omega arith) (apart c k d m n j (omega arith) away)
                (same ∙ ap (λ s. s + j) at_out));
      }
    where
      still :
          (c k d m n : ℕ)
          → (d < c) ⊎ (c + suc k ≤ d) ⊎ (n ≤ m)
          → (d < c + 1) ⊎ (c + 1 + k ≤ d) ⊎ (n ≤ m)
      still c k d m n (inl h) = inl (omega arith)
      still c k d m n (inr (inl h)) = inr (inl (omega arith))
      still c k d m n (inr (inr h)) = inr (inr h)

      apart : (c k d m n j : ℕ) → j < n → (d < c) ⊎ (c + suc k ≤ d) ⊎ (n ≤ m) → (d ≢ c) ⊎ (m ≢ j)
      apart c k d m n j lt (inl h) = inl (λ e. omega arith)
      apart c k d m n j lt (inr (inl h)) = inl (λ e. omega arith)
      apart c k d m n j lt (inr (inr h)) = inr (λ e. omega arith)
