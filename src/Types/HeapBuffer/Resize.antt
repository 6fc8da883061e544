-- ===== src/Types/HeapBuffer/Resize.antt =====
-- `resize` and what is built on it, for a buffer that owns its memory.
use tklb.Base.{
  ℕ, ◌-◌, ◌*◌, ◌^◌, ◌≤◌, ◌<◌, ◌≡◌, refl, ap, sym, subst, ◌∙◌, Bool, true, false, ◌&&◌, ◌||◌, List,
  [], ◌++◌, length, take, replicate, ltb, if◌then◌else◌, Run, ok, ◌>>=◌, arith, length-replicate,
  length-append, length-take, append-nil, ◌⊎◌, inl, inr, Bool-cases,
}
use tklb.Types.HeapBuffer.{
  Heap, HeapBuffer, allocate, construct, resize, fill, closest_chunk_size, chunk_size,
}
use tklb.Types.HeapBuffer.Chunks.{closest_chunk_size_bounds}
use tklb.Types.HeapBuffer.Owned.{HoldsIn, Holds}
use tklb.Types.HeapBuffer.Allocate.{owns, allocate-Allocated}
use tklb.Types.HeapBuffer.Cut.{length-le-real, construct-Rewritten, cut-Rewritten, split_size}

module _ {A : Type 0} where
  pub construct-nil : (b : HeapBuffer A) → construct b b.size [] ≡ ok b
  unfolding construct
  construct-nil b = refl

  fill-Holds :
      (fresh : A) (n : ℕ) (h : Heap) (b : HeapBuffer A) (ys : List A) (k : ℕ)
      → HoldsIn h b.buf b.real_size ys
      → n ≤ b.real_size
      → n - b.size ≡ k
      → ((n ≤ b.size) × (length ys ≡ n)) ⊎ ((length ys ≡ b.size) × (b.size ≤ n))
      → (b' : HeapBuffer A) × (fill fresh n (true, b, h) ≡ ok (true, b', h))
        × Holds h b' (ys ++ replicate k fresh)
  unfolding fill
  fill-Holds fresh n h b ys k o room e (inl (le, len)) =
      let none_left : k ≡ 0 = omega arith in
      (
        record b { size = n },
        rw (e, none_left, construct-nil b, ◌>>=◌),
        record {
          size = rw (none_left, append-nil) (sym len);
          memory = rw (none_left, append-nil) o;
        },
      )
  fill-Holds fresh n h b ys k o room e (inr (len, le)) =
      let c =
        construct-Rewritten h b.buf b.size b.real_size ys (replicate k fresh) o
          (omega (arith, length-replicate k fresh)) in
      let built : construct b b.size (replicate k fresh) ≡ ok c.buffer =
        subst (λ s. construct b s (replicate k fresh) ≡ ok c.buffer) len c.run in
      (
        record c.buffer { size = n },
        rw (e, built, ◌>>=◌),
        record {
          size = omega (arith, length-append ys (replicate k fresh), length-replicate k fresh);
          memory = rw c.real_size c.holds;
        },
      )

module _ {A : Type 0} (granted : Heap → ℕ → Bool) (width alignment : ℕ)
    (always : (h : Heap) (n : ℕ) → granted h n ≡ true) (wide : 0 < width) where
  -- What `resize` has done: it succeeds, the buffer holds `ys`, and no block was freed but the old one.
  pub record Resized (h : Heap) (b : HeapBuffer A) (ys : List A)
      (r : Run (Bool × HeapBuffer A × Heap)) : Type 0 where
    pub buffer : HeapBuffer A
    pub heap : Heap
    pub run : r ≡ ok (true, buffer, heap)
    pub holds : Holds heap buffer ys
    pub others : (j : ℕ) → j < h.next → owns b.buf j ≡ false → heap.live j ≡ h.live j

  -- The middle step of `resize`.
  abbrev provide : Heap → HeapBuffer A → ℕ → Bool → Run (Bool × HeapBuffer A × Heap)
  provide h b chunked downsize =
      if ltb b.real_size chunked || (downsize && ltb chunked b.real_size)
      then allocate granted width alignment h b chunked
      else ok (true, b, h)

  record Provided (h : Heap) (b : HeapBuffer A) (n : ℕ) (xs : List A)
      (r : Run (Bool × HeapBuffer A × Heap)) : Type 0 where
    buffer : HeapBuffer A
    heap : Heap
    run : r ≡ ok (true, buffer, heap)
    size : buffer.size ≡ b.size
    room : n ≤ buffer.real_size
    holds : HoldsIn heap buffer.buf buffer.real_size xs
    others : (j : ℕ) → j < h.next → owns b.buf j ≡ false → heap.live j ≡ h.live j

  provide-Provided :
      (h : Heap) (b : HeapBuffer A) (chunked : ℕ) (downsize : Bool) (n : ℕ) (xs : List A)
      → HoldsIn h b.buf b.real_size xs
      → length xs ≤ b.size
      → b.size ≤ b.real_size
      → length xs ≤ n
      → n ≤ chunked
      → chunked * width < 2 ^ 32
      → Provided h b n xs (provide h b chunked downsize)
  provide-Provided h b chunked downsize n xs o lo hi le fits small =
      elim (Bool-cases (ltb b.real_size chunked || (downsize && ltb chunked b.real_size))) [
        | inl again ↦
            let a =
              allocate-Allocated granted width alignment always wide h b chunked xs o lo hi
                (omega arith) small in
            record {
              buffer = a.buffer;
              heap = a.heap;
              run = rw again a.run;
              size = a.size;
              room = omega (arith, a.real_size);
              holds = rw a.real_size a.holds;
              others = λ j lt no_owner. a.released j lt ∙ rw no_owner;
            }
        | inr enough ↦ record {
          buffer = b;
          heap = h;
          run = rw enough;
          size = refl;
          room = ground arith;
          holds = o;
          others = λ j lt no_owner. refl;
        }
      ]

  -- Where the allocator grants every request, and the size in whole chunks and its bytes fit 32 bits,
  -- `resize` to `n` objects succeeds, keeps the first of them and adds fresh ones, and frees no block
  -- but the old one, whether or not the memory is allocated anew.
  pub resize-Resized :
      (fresh : A) (h : Heap) (b : HeapBuffer A) (n : ℕ) (downsize : Bool) (xs : List A)
      → Holds h b xs
      → n < 2 ^ 32 - 16
      → closest_chunk_size n chunk_size * width < 2 ^ 32
      → Resized h b
          (take n xs ++ replicate (n - length xs) fresh)
          (resize granted width alignment fresh h b n downsize)
  unfolding resize fill
  resize-Resized fresh h b n downsize xs o lt small =
      let chunked = closest_chunk_size n chunk_size in
      let bounds = closest_chunk_size_bounds n lt in
      let r = cut-Rewritten h b.buf b.size b.real_size xs n o.memory o.size in
      let t = length-take n xs in
      let p =
        provide-Provided h r.buffer chunked downsize n (take n xs) (rw r.real_size r.holds)
          (omega (arith, r.size, o.size, t))
          (omega
            (arith, r.size, r.real_size, o.size, length-le-real h b.buf b.real_size xs o.memory))
          (omega (arith, t)) bounds.0 small in
      let same : p.buffer.size ≡ length xs = p.size ∙ r.size ∙ o.size in
      let (b', e, f) =
        fill-Holds fresh n p.heap p.buffer (take n xs) (n - length xs) p.holds p.room
          (ap (λ k. n - k) same) (split_size n xs p.buffer.size same) in
      record {
        buffer = b';
        heap = p.heap;
        run = rw (r.run, ◌>>=◌, p.run) e;
        holds = f;
        others = λ j l no. p.others j l (r.same_block j ∙ no);
      }
