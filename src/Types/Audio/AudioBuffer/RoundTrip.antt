-- ===== src/Types/Audio/AudioBuffer/RoundTrip.antt =====
-- `setFromInterleaved` and then `putInterleaved`.
use tklb.Base.{
  ℕ, ◌+◌, ◌*◌, ◌/◌, ◌%◌, ◌≤◌, ◌<◌, ◌≡◌, refl, ap, sym, ◌∙◌, Option, none, some, List, length,
  get_elem?, ok, arith,
}
use native.Mathlib.Nat.{div-add-mod, mod-lt, div-lt_iff_lt-mul, mul_comm, zero-add}
use tklb.Types.Audio.AudioBuffer.{AudioBuffer, size, set_from_interleaved, put_interleaved}
use tklb.Types.Audio.AudioBuffer.Cells.{IsValid}
use tklb.Types.Audio.AudioBuffer.Copied.{converted}
use tklb.Types.Audio.AudioBuffer.Deinterleave.{set_from_interleaved-Deinterleaved}
use tklb.Types.Audio.AudioBuffer.Interleave.{emitted, put_interleaved-Emitted}

module _ {A B : Type 0} (convert : B → A) (back : A → B)
    (undone : (x : B) → back (convert x) ≡ x) where
  converted-converted : (o : Option B) → converted back (converted convert o) ≡ o
  converted-converted none = refl
  converted-converted (some x) = ap some (undone x)

  -- What is read back after `n` frames of `src` were written to `b`.
  pub record ReadBack (src target : List B) (n : ℕ) (b : AudioBuffer A) : Type 0 where
    pub buffer : AudioBuffer A
    pub result : List B
    pub written : set_from_interleaved convert src n b.channels 0 0 b ≡ ok buffer
    pub valid : IsValid buffer
    pub read_back : put_interleaved back target 0 0 0 buffer ≡ ok (n, result)
    pub same_length : length result ≡ length target
    pub same : (j : ℕ) → j < n * b.channels → get_elem? result j ≡ get_elem? src j

  -- Interleaved frames that a well formed buffer with a channel has room for come back as they were, in their
  -- order, where converting a sample and converting it back gives the sample, as it does where no conversion is
  -- needed, and the target has room for them.
  pub put_interleaved-set_from_interleaved :
      (src target : List B) (n : ℕ) (b : AudioBuffer A)
      → IsValid b
      → 0 < b.channels
      → n ≤ size b
      → n * b.channels ≤ length src
      → n * b.channels ≤ length target
      → ReadBack src target n b
  put_interleaved-set_from_interleaved src target n b v pos room reads writes =
      let w = set_from_interleaved-Deinterleaved convert src n 0 b v (omega arith) reads in
      let valid_size : w.buffer.valid_size ≡ n = w.valid_size ∙ zero-add n in
      let all : emitted back w.buffer 0 0 ≡ n = omega arith in
      let e =
        put_interleaved-Emitted back target 0 0 w.buffer w.valid (rw w.channels pos) (omega arith)
          (rw (all, w.channels) writes) in
      record {
        buffer = w.buffer;
        result = e.result;
        written = w.run;
        valid = w.valid;
        read_back = e.run ∙ ap (λ m. ok (m, e.result)) all;
        same_length = e.same_length;
        same = λ j lt.
            let chan = b.channels in
            let c = j % chan in
            let i = j / chan in
            let lc : c < chan = mod-lt j pos in
            let li : i < n = snd_iff pos lt in
            let place : c + i * chan ≡ j =
              omega (arith, div-add-mod j chan, mul_comm chan (j / chan)) in
            ap (get_elem? e.result) (sym place)
            ∙ ap (λ m. get_elem? e.result (c + i * m)) (sym w.channels)
            ∙ e.cells c i (rw w.channels lc) (rw all li)
            ∙ ap (converted back) (w.cells c i lc li)
            ∙ converted-converted (get_elem? src (c + i * chan))
            ∙ ap (get_elem? src) place;
      }
    where
      snd_iff : {j n chan : ℕ} → 0 < chan → j < n * chan → j / chan < n
      snd_iff pos lt = (div-lt_iff_lt-mul pos).1 lt
