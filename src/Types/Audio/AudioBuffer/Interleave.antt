-- ===== src/Types/Audio/AudioBuffer/Interleave.antt =====
-- `putInterleaved`.
use tklb.Base.{
  ℕ, zero, suc, ◌+◌, ◌-◌, ◌*◌, ◌^◌, ◌≤◌, ◌<◌, ◌≡◌, ◌≢◌, refl, ap, ◌∙◌, min, sub32_lem, List, length,
  get_elem?, if◌then◌else◌, ◌==◌, ==→eq, ==→ne, Bool-cases, inl, inr, ok, ◌>>=◌, arith, add32,
  add32_lem,
}
use native.Mathlib.Nat.{suc-mul, mul-le-mul_left, zero-add, zero-mul, mul-div_cancel_left}
use tklb.Types.Audio.Samples.{sweep, sweep-Swept}
use tklb.Types.Audio.AudioBuffer.{AudioBuffer, size, start, put_channels, put_interleaved}
use tklb.Types.Audio.AudioBuffer.Cells.{IsValid, cell, start_lem, channel_room, cells-ne}
use tklb.Types.Audio.AudioBuffer.Copy.{size-fits}
use tklb.Types.Audio.AudioBuffer.Copied.{converted, joined-some}
use tklb.Types.Audio.AudioBuffer.Deinterleave.{interleaved-inside}

module _ {A B : Type 0} (convert : B → A) where
  -- The target after the loop of `putInterleaved` from the channel `c` on.
  record Interleaved (k c chan n o : ℕ) (target : List A) (out : ℕ) (b : AudioBuffer B)
      : Type 0 where
    result : List A
    run : put_channels convert k c chan n o target out b ≡ ok (out + k * n, result)
    same_length : length result ≡ length target
    written :
        (d i : ℕ)
        → c ≤ d
        → d < c + k
        → i < n
        → get_elem? result (d + i * chan) ≡ converted convert (cell b d (o + i))
    others :
        (j : ℕ)
        → ((d i : ℕ) → c ≤ d → d < c + k → i < n → j ≢ d + i * chan)
        → get_elem? result j ≡ get_elem? target j

  put_round :
      (k c chan n o s out out' : ℕ) (target result : List A) (b : AudioBuffer B)
      → start b c + o ≡ s
      → sweep (λ y x. convert x) n target c chan b.samples s 1 ≡ ok result
      → add32 out n ≡ out'
      → put_channels convert (suc k) c chan n o target out b
        ≡ put_channels convert k (c + 1) chan n o result out' b
  unfolding put_channels
  put_round k c chan n o s out out' target result b e₁ e₂ e₃ = rw (e₁, e₂, ◌>>=◌, e₃)

  put_channels-Interleaved :
      (k c chan n o : ℕ) (target : List A) (out : ℕ) (b : AudioBuffer B)
      → IsValid b
      → chan ≡ b.channels
      → c + k ≡ chan
      → o + n ≤ size b
      → n * chan ≤ length target
      → out + k * n < 2 ^ 32
      → Interleaved k c chan n o target out b
  unfolding put_channels
  put_channels-Interleaved zero c chan n o target out b v e last room fits small = record {
    result = target;
    run = ap (λ m. ok (m, target)) (omega (arith, zero-mul n));
    same_length = refl;
    written = λ d i le lt lt'. absurd (omega arith);
    others = λ j no_write. refl;
  }
  put_channels-Interleaved (suc k) c chan n o target out b v e last room fits small =
      let lt : c < chan = omega arith in
      let from : start b c + o ≡ c * size b + o = omega (arith, start_lem b c v (omega arith)) in
      let w =
        sweep-Swept (λ y x. convert x) n target c chan b.samples (c * size b + o) 1 (omega arith)
          (λ i l. (
            omega (arith, interleaved-inside chan c i n lt l),
            omega (arith, channel_room b c v (omega arith)),
          )) in
      let sum : add32 out n ≡ out + n = add32_lem out n (omega (arith, suc-mul k n)) in
      let rest =
        put_channels-Interleaved k (c + 1) chan n o w.result (out + n) b v e (omega arith) room
          (omega (arith, w.same_length)) (omega (arith, suc-mul k n)) in
      let total : out + n + k * n ≡ out + suc k * n = omega (arith, suc-mul k n) in
      record {
        result = rest.result;
        run =
            put_round k c chan n o (c * size b + o) out (out + n) target w.result b from w.run sum
            ∙ rest.run
            ∙ ap (λ m. ok (m, rest.result)) total;
        same_length = rest.same_length ∙ w.same_length;
        written = λ d i le l li. elim (Bool-cases (d == c)) [
          | inl here ↦
              let same : d ≡ c = ==→eq d c here in
              rw same (
                rest.others (c + i * chan) (λ d' i' le' l' li' e'.
                  cells-ne chan i c i' d' lt (omega arith) (inr (omega arith)) (omega arith))
                ∙ w.written i li
                ∙ joined-some convert target (c + i * chan)
                    (get_elem? b.samples (c * size b + o + i * 1))
                    (omega (arith, interleaved-inside chan c i n lt li))
                ∙ ap (λ j. converted convert (get_elem? b.samples j)) (omega arith))
          | inr later ↦ rest.written d i (omega (arith, ==→ne d c later)) (omega arith) li
        ];
        others = λ j no_write.
            rest.others j (λ d i le l li. no_write d i (omega arith) (omega arith) li)
            ∙ w.others j (λ i li. no_write c i (omega arith) (omega arith) li);
      }

  -- How many frames `putInterleaved` puts.
  abbrev pub emitted : AudioBuffer B → ℕ → ℕ → ℕ
  emitted b len o = min (b.valid_size - o) (if len == 0 then b.valid_size else len)

  -- What `putInterleaved` of all channels gives.
  pub record Emitted (target : List A) (len o : ℕ) (b : AudioBuffer B) : Type 0 where
    pub result : List A
    pub run : put_interleaved convert target len o 0 b ≡ ok (emitted b len o, result)
    pub same_length : length result ≡ length target
    pub cells :
        (c i : ℕ)
        → c < b.channels
        → i < emitted b len o
        → get_elem? result (c + i * b.channels) ≡ converted convert (cell b c (o + i))

  pub put_interleaved-Emitted :
      (target : List A) (len o : ℕ) (b : AudioBuffer B)
      → IsValid b
      → 0 < b.channels
      → o ≤ b.valid_size
      → emitted b len o * b.channels ≤ length target
      → Emitted target len o b
  unfolding put_interleaved
  put_interleaved-Emitted target len o b v pos le fits =
      let n = emitted b len o in
      let chan = b.channels in
      let inside : o + n ≤ size b = omega (arith, v.valid) in
      let w = put_channels-Interleaved chan 0 chan n o target 0 b v refl (omega arith) inside fits (
        omega (
          arith,
          v.total,
          v.fits,
          mul-le-mul_left chan (below o (emitted b len o) (size b) inside),
        )) in
      record {
        result = w.result;
        run = rw (
          sub32_lem b.valid_size o le (omega (arith, v.valid, size-fits b v)),
          w.run,
          ◌>>=◌,
          zero-add (chan * n),
          mul-div_cancel_left n pos,
        );
        same_length = w.same_length;
        cells = λ c i lt li. w.written c i (omega arith) (omega arith) li;
      }
    where
      below : (o n s : ℕ) → o + n ≤ s → n ≤ s
      below o n s le = omega arith
