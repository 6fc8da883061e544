-- ===== src/Types/Audio/AudioRingBuffer/Over.antt =====
-- `pushOver`, which makes room before it pushes.
use tklb.Base.{◌-◌, ◌≤◌, ◌≡◌, subst, min, le→ltb, le→leb, arith, sub32_lem}
use tklb.Types.Audio.AudioBuffer.{AudioBuffer, size}
use tklb.Types.Audio.AudioBuffer.Cells.{IsValid}
use tklb.Types.Audio.AudioBuffer.Copy.{size-fits}
use tklb.Types.Audio.AudioRingBuffer.{AudioRingBuffer, push_over, remaining}
use tklb.Types.Audio.AudioRingBuffer.Frames.{IsRing}
use tklb.Types.Audio.AudioRingBuffer.Pop.{dropped, dropped-IsRing}
use tklb.Types.Audio.AudioRingBuffer.Push.{Pushed, push-Pushed}

module _ {A B : Type 0} (convert : B → A) where
  -- Where there is not more room than the input has frames, and the ring has at least as many,
  -- `pushOver` drops as many old frames as the input has, also where some or all of it would have fitted.
  pub push_over-dropped :
      (r : AudioRingBuffer A) (input : AudioBuffer B)
      → IsRing r
      → IsValid input
      → size r.base - r.head ≤ input.valid_size
      → input.valid_size ≤ r.head
      → Pushed convert
          (dropped r input.valid_size)
          input
          0
          input.valid_size
          (push_over convert input r)
  unfolding push_over remaining
  push_over-dropped r input o vi scarce enough =
      let v = input.valid_size in
      let fits = size-fits r.base o.base in
      let all_fit : min v (size r.base - (r.head - v)) ≡ v = omega (arith, o.head) in
      subst (λ n. Pushed convert (dropped r v) input 0 n (push_over convert input r)) all_fit
        (rw
          (
            le→ltb r.head v enough,
            sub32_lem (size r.base) r.head o.head fits,
            le→leb (size r.base - r.head) v scarce,
            sub32_lem r.head v enough (omega (arith, o.head)),
          )
          (push-Pushed convert (dropped r v) input 0 (dropped-IsRing r v o) vi
            (omega (arith, all_fit, vi.valid))))
