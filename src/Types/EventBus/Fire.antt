-- ===== src/Types/EventBus/Fire.antt =====
-- Which callbacks `fireEvent` calls, and in which order.
use tklb.Base.{
  ℕ, ◌+◌, ◌^◌, ◌<◌, ◌≡◌, ◌≢◌, refl, ap, sym, ◌∙◌, Bool, true, some, List, [], ◌∷◌, ◌++◌, length,
  get_elem?, set, ◌==◌, ok, ◌>>=◌, arith, inl, inr, Bool-cases, ==→eq, length-append, append_assoc,
  eq-nil, eq→==, get_elem?-set_self, get_elem?-set_ne, get_elem?-lt,
}
use tklb.Types.HeapBuffer.{Heap, HeapBuffer}
use tklb.Types.HeapBuffer.Chunks.{closest_chunk_size_bounds}
use tklb.Types.HeapBuffer.Owned.{HoldsIn, Holds}
use tklb.Types.HeapBuffer.Find.{object_at-middle, Absent, remove_object-remove_at}
use tklb.Types.HeapBuffer.Remove.{last_first, remove_at-Removed}
use tklb.Types.HeapBuffer.Push.{push-Resized}
use tklb.Types.EventBus.{EventBus, add_subscriber, remove_subscriber, call_from, fire_event}

call_from-Holds :
    (h : Heap) (b : HeapBuffer ℕ) (us subs : List ℕ)
    → HoldsIn h b.buf b.real_size (us ++ subs)
    → call_from (length subs) (length us) b ≡ ok subs
unfolding call_from
call_from-Holds h b us [] o = refl
call_from-Holds h b us (sub ∷ subs) o =
    let o' : HoldsIn h b.buf b.real_size ((us ++ sub ∷ []) ++ subs) =
      rw (append_assoc us (sub ∷ []) subs) o in
    let next : length (us ++ sub ∷ []) ≡ length us + 1 =
      length-append us (sub ∷ []) ∙ omega arith in
    rw (
      object_at-middle h b.buf b.real_size us subs sub o,
      ◌>>=◌,
      sym next,
      call_from-Holds h b (us ++ sub ∷ []) subs o',
    )

-- `fireEvent` calls every subscription of the event once, in the order of the buffer.
fire_event-Holds :
    (h : Heap) (bus : EventBus) (event : ℕ) (b : HeapBuffer ℕ) (subs : List ℕ)
    → get_elem? bus.events event ≡ some b
    → Holds h b subs
    → fire_event event bus ≡ ok subs
unfolding fire_event
fire_event-Holds h bus event b subs e o =
    rw (e, ◌>>=◌)
      (elim (Bool-cases (b.size == 0)) [
        | inl nobody ↦
            let nothing : subs ≡ [] = eq-nil subs (omega (arith, ==→eq b.size 0 nobody, o.size)) in
            rw (nobody, nothing)
        | inr somebody ↦
            rw somebody (ap (λ n. call_from n 0 b) o.size ∙ call_from-Holds h b [] subs o.memory)
      ])

-- The events other than `event` keep their subscriptions.
abbrev pub SameOthers : EventBus → EventBus → ℕ → Type 0
SameOthers bus bus' event = (j : ℕ) → event ≢ j → get_elem? bus'.events j ≡ get_elem? bus.events j

-- Where the allocator grants every request and the event has fewer than 2^28 subscriptions, a new one
-- is called after those that were there, and other events keep theirs.
pub fire_event-add_subscriber :
    (granted : Heap → ℕ → Bool)
    → ((h : Heap) (n : ℕ) → granted h n ≡ true)
    → (sub event : ℕ) (h : Heap) (bus : EventBus) (b : HeapBuffer ℕ) (subs : List ℕ)
    → get_elem? bus.events event ≡ some b
    → Holds h b subs
    → length subs < 2 ^ 28
    → (bus' : EventBus) × (h' : Heap) × (add_subscriber granted sub event h bus ≡ ok (bus', h'))
      × (fire_event event bus' ≡ ok (subs ++ sub ∷ []))
      × SameOthers bus bus' event
unfolding add_subscriber
fire_event-add_subscriber granted always sub event h bus b subs e o few =
    let bounds = closest_chunk_size_bounds (length subs + 1) (omega arith) in
    let r =
      push-Resized granted 8 0 always (omega arith) sub h b subs o (omega arith)
        (omega (arith, bounds.1)) in
    let bus' : EventBus = record { events = set bus.events event r.buffer } in
    (
      bus',
      r.heap,
      rw (e, ◌>>=◌, r.run),
      fire_event-Holds r.heap bus' event r.buffer (subs ++ sub ∷ [])
          (get_elem?-set_self bus.events event r.buffer (get_elem?-lt bus.events event b e))
          r.holds,
      λ j ne. get_elem?-set_ne bus.events event j r.buffer ne,
    )

-- A subscription that is removed is no longer called, the others of its event still are, with the last
-- of those behind it in its place, and other events keep theirs.
pub fire_event-remove_subscriber :
    (sub event : ℕ) (h : Heap) (bus : EventBus) (b : HeapBuffer ℕ) (us rest : List ℕ)
    → get_elem? bus.events event ≡ some b
    → Holds h b (us ++ sub ∷ rest)
    → Absent (λ x y. x == y) sub us
    → (bus' : EventBus) × (remove_subscriber sub event bus ≡ ok bus')
      × (fire_event event bus' ≡ ok (us ++ last_first rest))
      × SameOthers bus bus' event
unfolding remove_subscriber
fire_event-remove_subscriber sub event h bus b us rest e o absent =
    let found =
      remove_object-remove_at (λ x y. x == y) sub h b us sub rest o absent (eq→== sub sub refl) in
    let r = remove_at-Removed h b us sub rest o in
    let bus' : EventBus = record { events = set bus.events event r.buffer } in
    (
      bus',
      rw (e, ◌>>=◌, found, r.run),
      fire_event-Holds h bus' event r.buffer (us ++ last_first rest)
          (get_elem?-set_self bus.events event r.buffer (get_elem?-lt bus.events event b e))
          r.holds,
      λ j ne. get_elem?-set_ne bus.events event j r.buffer ne,
    )
