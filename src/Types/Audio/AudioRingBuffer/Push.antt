-- ===== src/Types/Audio/AudioRingBuffer/Push.antt =====
-- `push` appends frames to the queue.
use tklb.Base.{
  ℕ, ◌+◌, ◌-◌, ◌*◌, ◌≤◌, ◌<◌, ◌≡◌, refl, subst, Option, get_elem?, min, Bool-cases, inl, inr, ltb,
  ltb→lt, ltb→le, if◌then◌else◌, Run, ok, ◌>>=◌, arith, add32_lem, sub32_lem,
}
use tklb.Types.Audio.AudioBuffer.{AudioBuffer, size}
use tklb.Types.Audio.AudioBuffer.Cells.{IsValid, cell}
use tklb.Types.Audio.AudioBuffer.Copy.{size-fits}
use tklb.Types.Audio.AudioRingBuffer.{AudioRingBuffer, push}
use tklb.Types.Audio.AudioRingBuffer.Frames.{
  IsRing, wrap, place, frame, place-lt, place-push, place-new, place-old,
}
use tklb.Types.Audio.AudioBuffer.Copied.{converted}
use tklb.Types.Audio.AudioRingBuffer.Write.{Written, write_at_once, write_in_two}

module _ {A B : Type 0} (convert : B → A) where
  -- What `push` leaves: the first `n` frames of the input, as many as fit, are behind those that were
  -- there, and those are as before.
  pub record Pushed (r : AudioRingBuffer A) (input : AudioBuffer B) (offset_src n : ℕ)
      (result : Run (ℕ × AudioRingBuffer A)) : Type 0 where
    pub ring : AudioRingBuffer A
    pub run : result ≡ ok (n, ring)
    pub valid : IsRing ring
    pub head : ring.head ≡ r.head + n
    pub same_size : size ring.base ≡ size r.base
    pub channels : ring.base.channels ≡ r.base.channels
    pub old : (c k : ℕ) → c < r.base.channels → k < r.head → frame ring c k ≡ frame r c k
    pub new :
        (c j : ℕ)
        → c < r.base.channels
        → c < input.channels
        → j < n
        → frame ring c (r.head + j) ≡ converted convert (cell input c (offset_src + j))

  at_size :
      {r : AudioRingBuffer A} {input : AudioBuffer B} {offset_src n : ℕ}
      (w : Written convert r input offset_src n) (c i : ℕ) (x : Option A)
      → cell w.ring.base c i ≡ x
      → get_elem? w.ring.base.samples (c * size r.base + i) ≡ x
  at_size w c i x h = subst (λ n. get_elem? w.ring.base.samples (c * n + i) ≡ x) w.same_size h

  Written-Pushed :
      (r : AudioRingBuffer A) (input : AudioBuffer B) (offset_src n : ℕ)
      → IsRing r
      → n ≤ size r.base - r.head
      → 0 < n
      → (w : Written convert r input offset_src n)
      → Pushed r input offset_src n (ok (n, record w.ring { head = r.head + n }))
  Written-Pushed r input offset_src n o room pos w =
      let m = size r.base in
      record {
        ring = record w.ring { head = r.head + n };
        run = refl;
        valid = record {
          base = w.valid;
          head = omega (arith, w.same_size, o.head);
          tail = ground (arith, w.same_size, w.tail, o.tail, o.head);
        };
        head = refl;
        same_size = w.same_size;
        channels = w.channels;
        old = λ c k lt lk.
            rw
              (
                w.same_size,
                w.tail,
                place-push m r.head r.tail n k (omega (arith, o.head)) o.tail (omega arith),
              )
              (at_size w c (place m r.head r.tail k) (frame r c k) (
                w.old c (place m r.head r.tail k) lt
                  (place-lt m r.head r.tail k o.tail o.head (omega (arith, o.head)))
                  (λ j lj. place-old m r.head r.tail k j (omega (arith, o.head)) o.tail lk)));
        new = λ c j lt li lj.
            rw
              (
                w.same_size,
                w.tail,
                place-push m r.head r.tail n (r.head + j) (omega (arith, o.head)) o.tail
                    (omega arith),
                place-new m r.head r.tail j (omega (arith, o.head)) o.tail,
              )
              (at_size w c (wrap m (r.tail + j)) (converted convert (cell input c (offset_src + j)))
                (w.new c j lt li lj));
      }

  -- `push` appends the frames of the input that fit, and returns how many those are.
  pub push-Pushed :
      (r : AudioRingBuffer A) (input : AudioBuffer B) (offset_src : ℕ)
      → IsRing r
      → IsValid input
      → offset_src + min input.valid_size (size r.base - r.head) ≤ size input
      → Pushed r input offset_src
          (min input.valid_size (size r.base - r.head))
          (push convert input offset_src r)
  unfolding push
  push-Pushed r input offset_src o vi reads =
      let fits = size-fits r.base o.base in
      rw (sub32_lem (size r.base) r.head o.head fits, clamp (size r.base - r.head) input.valid_size)
        (elim (Bool-cases (ltb 0 n)) [
          | inr nothing ↦
              let none : n ≡ 0 = omega (arith, ltb→le 0 n nothing) in rw nothing (no_frames none)
          | inl some_frame ↦
              let pos = ltb→lt 0 n some_frame in
              let w = written pos in
              rw (some_frame, w.run, ◌>>=◌, add32_lem r.head n (omega (arith, o.head)))
                (Written-Pushed r input offset_src n o (omega arith) pos w)
        ])
    where
      n : ℕ
      n = min input.valid_size (size r.base - r.head)

      clamp : (a b : ℕ) → (if ltb a b then a else b) ≡ min b a
      clamp a b = ground arith

      written : 0 < n → Written convert r input offset_src n
      written pos = elim (Bool-cases (ltb (size r.base - r.tail) n)) [
        | inl over ↦
            write_in_two convert r input offset_src n o vi (omega arith)
              (ltb→lt (size r.base - r.tail) n over) reads
        | inr room ↦
            write_at_once convert r input offset_src n o vi pos
              (ltb→le (size r.base - r.tail) n room) reads
      ]

      no_frames : n ≡ 0 → Pushed r input offset_src n (ok (n, r))
      no_frames none = record {
        ring = r;
        run = refl;
        valid = o;
        head = omega arith;
        same_size = refl;
        channels = refl;
        old = λ c k lt lk. refl;
        new = λ c j lt li lj. absurd (omega arith);
      }
