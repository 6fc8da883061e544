-- ===== src/Types/Audio/AudioRingBuffer/Pop.antt =====
-- `pop` takes the oldest frames out of the queue.
use tklb.Base.{ℕ, ◌+◌, ◌-◌, ◌≤◌, ◌<◌, ◌≡◌, ap, min, ok, ◌>>=◌, arith, sub32_lem}
use tklb.Types.Audio.AudioBuffer.{AudioBuffer, size}
use tklb.Types.Audio.AudioBuffer.Cells.{IsValid, cell}
use tklb.Types.Audio.AudioBuffer.Copy.{size-fits}
use tklb.Types.Audio.AudioRingBuffer.{AudioRingBuffer, peek, pop}
use tklb.Types.Audio.AudioRingBuffer.Frames.{IsRing, place, frame}
use tklb.Types.Audio.AudioRingBuffer.Peek.{Peeked, peek-Peeked}

place-dropped :
    (m tail head n k : ℕ)
    → head ≤ m
    → tail < m
    → n + k < head
    → place m (head - n) tail k ≡ place m head tail (n + k)
place-dropped m tail head n k le lt lt' = ground arith

module _ {A : Type 0} where
  -- The ring without its `n` oldest frames.
  abbrev pub dropped : AudioRingBuffer A → ℕ → AudioRingBuffer A
  dropped r n = record r { head = r.head - n }

  pub dropped-IsRing : (r : AudioRingBuffer A) (n : ℕ) → IsRing r → IsRing (dropped r n)
  dropped-IsRing r n o = record { base = o.base; head = omega (arith, o.head); tail = o.tail }

  pub frame-dropped :
      (r : AudioRingBuffer A) (n c k : ℕ)
      → IsRing r
      → n + k < r.head
      → frame (dropped r n) c k ≡ frame r c (n + k)
  frame-dropped r n c k o lt =
      ap (cell r.base c) (place-dropped (size r.base) r.tail r.head n k o.head o.tail lt)

module _ {A B : Type 0} (convert : B → A) where
  -- `pop` from a well formed ring with at least `offset_src` frames, into a well formed output with room for
  -- what is read, gives what `peek` gives, the frames from `offset_src` on, and takes as many frames off the
  -- queue, but the oldest, whatever `offset_src` is; the ring stays well formed and the other frames are kept.
  pub pop-dropped :
      (out : AudioBuffer A) (elements offset_src offset_dst : ℕ) (r : AudioRingBuffer B)
      → IsRing r
      → IsValid out
      → offset_src ≤ r.head
      → offset_dst + min elements (r.head - offset_src) ≤ size out
      → let n = min elements (r.head - offset_src) in
        (p : Peeked convert r n offset_src offset_dst out
          (peek convert out elements offset_src offset_dst r))
        × (pop convert out elements offset_src offset_dst r ≡ ok (n, p.buffer, dropped r n))
        × IsRing (dropped r n)
        × ((c k : ℕ) → n + k < r.head → frame (dropped r n) c k ≡ frame r c (n + k))
  unfolding pop
  pop-dropped out elements offset_src offset_dst r o vo le fits_out =
      let n = min elements (r.head - offset_src) in
      let p = peek-Peeked convert out elements offset_src offset_dst r o vo le fits_out in
      (
        p,
        rw (
          p.run,
          ◌>>=◌,
          sub32_lem r.head n (omega arith) (omega (arith, o.head, size-fits r.base o.base)),
        ),
        dropped-IsRing r n o,
        λ c k lt. frame-dropped r n c k o lt,
      )
