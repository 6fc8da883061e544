-- ===== src/Types/Audio/AudioRingBuffer/Peek.antt =====
-- `peek` and `pop` read frames of the queue.
use tklb.Base.{
  ℕ, ◌+◌, ◌-◌, ◌^◌, ◌≤◌, ◌<◌, ◌≡◌, refl, ap, sym, ◌∙◌, min, Bool-cases, inl, inr, ◌⊎◌, ltb, ltb→lt,
  ltb→le, if◌then◌else◌, Run, ok, ◌>>=◌, arith, sub32_lem,
}
use tklb.Types.Audio.AudioBuffer.{AudioBuffer, size}
use tklb.Types.Audio.AudioBuffer.Cells.{IsValid, cell, set_valid_size_lem, size-valid_size}
use tklb.Types.Audio.AudioBuffer.Copy.{size-fits}
use tklb.Types.Audio.AudioBuffer.Copied.{converted}
use tklb.Types.Audio.AudioRingBuffer.{AudioRingBuffer, tail_start, peek}
use tklb.Types.Audio.AudioRingBuffer.Frames.{IsRing, wrap, frame}
use tklb.Types.Audio.AudioRingBuffer.Read.{
  start_index, place-offset, Read, copies_at_once, copies_in_two,
}

module _ {A B : Type 0} (convert : B → A) where
  -- What `peek` gives: the frames from `offset_src` on, as many as asked for and as there are; they lie
  -- in the output from `offset_dst` on, and nothing else of the output changes but its valid size.
  pub record Peeked (r : AudioRingBuffer B) (n offset_src offset_dst : ℕ) (out : AudioBuffer A)
      (result : Run (ℕ × AudioBuffer A)) : Type 0 where
    pub buffer : AudioBuffer A
    pub run : result ≡ ok (n, buffer)
    pub valid_size : buffer.valid_size ≡ n
    pub channels : buffer.channels ≡ out.channels
    pub same_size : size buffer ≡ size out
    pub new :
        (c k : ℕ)
        → c < out.channels
        → c < r.base.channels
        → k < n
        → cell buffer c (offset_dst + k) ≡ converted convert (frame r c (offset_src + k))
    pub old :
        (c i : ℕ)
        → c < out.channels
        → i < size out
        → (i < offset_dst) ⊎ (offset_dst + n ≤ i)
        → cell buffer c i ≡ cell out c i

  pub peek-Peeked :
      (out : AudioBuffer A) (elements offset_src offset_dst : ℕ) (r : AudioRingBuffer B)
      → IsRing r
      → IsValid out
      → offset_src ≤ r.head
      → offset_dst + min elements (r.head - offset_src) ≤ size out
      → Peeked r
          (min elements (r.head - offset_src))
          offset_src
          offset_dst
          out
          (peek convert out elements offset_src offset_dst r)
  unfolding peek tail_start
  peek-Peeked out elements offset_src offset_dst r o vo le fits_out =
      rw
        (
          sub32_lem r.head offset_src le (omega (arith, o.head, fits)),
          clamp (r.head - offset_src) elements,
          start_index m r.tail (r.head - offset_src) (omega (arith, o.head)) o.tail fits,
        )
        (elim (Bool-cases (ltb 0 n)) [
          | inr nothing ↦
              let none : n ≡ 0 = omega (arith, ltb→le 0 n nothing) in
              rw (nothing, set_valid_size_lem n out (omega arith)) (no_frames none)
          | inl some_frame ↦
              let w = copies (ltb→lt 0 n some_frame) in
              rw
                (
                  some_frame,
                  w.run,
                  ◌>>=◌,
                  set_valid_size_lem n w.buffer (omega (arith, w.same_size)),
                )
                (of_copies w)
        ])
    where
      n : ℕ
      n = min elements (r.head - offset_src)

      m : ℕ
      m = size r.base

      from : ℕ
      from = wrap m (r.tail + m - (r.head - offset_src))

      fits : m < 2 ^ 32
      fits = size-fits r.base o.base

      clamp : (a b : ℕ) → (if ltb a b then a else b) ≡ min b a
      clamp a b = ground arith

      copies : 0 < n → Read convert r from n offset_dst out
      copies pos = elim (Bool-cases (ltb (m - from) n)) [
        | inl over ↦
            copies_in_two convert r from n offset_dst out o vo (omega (arith, o.head))
              (ltb→lt (m - from) n over) (ground (arith, o.tail, o.head)) fits_out
        | inr room ↦
            copies_at_once convert r from n offset_dst out o vo pos (ltb→le (m - from) n room)
              (ground (arith, o.tail, o.head)) fits_out
      ]

      of_copies :
          (w : Read convert r from n offset_dst out)
          → Peeked r n offset_src offset_dst out (ok (n, record w.buffer { valid_size = n }))
      of_copies w = record {
        buffer = record w.buffer { valid_size = n };
        run = refl;
        valid_size = refl;
        channels = w.channels;
        same_size = size-valid_size n w.buffer ∙ w.same_size;
        new = λ c k lt li lk. rw (size-valid_size n w.buffer) (
            w.new c k lt li lk
            ∙ ap (λ i. converted convert (cell r.base c i))
                (sym (place-offset m r.tail r.head offset_src k o.head o.tail (omega arith))));
        old = λ c i lt in_out away. rw (size-valid_size n w.buffer) (w.old c i lt in_out away);
      }

      no_frames :
          n ≡ 0 → Peeked r n offset_src offset_dst out (ok (n, record out { valid_size = n }))
      no_frames none = record {
        buffer = record out { valid_size = n };
        run = refl;
        valid_size = refl;
        channels = refl;
        same_size = size-valid_size n out;
        new = λ c k lt li lk. absurd (omega arith);
        old = λ c i lt in_out away. rw (size-valid_size n out) refl;
      }
