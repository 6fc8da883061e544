-- ===== src/Types/EventBus.antt =====
-- src/types/TEventBus.hpp: `EventBus` with the default mutex, which does nothing.
-- A subscription is named by its address. Callbacks are taken not to subscribe or unsubscribe, and
-- `fire_event` gives the subscriptions in the order in which their callbacks are called.
pub mod Fire
mod Tests
use tklb.Base.{
  ℕ, zero, suc, ◌+◌, Bool, List, [], ◌∷◌, get_elem?, set, ◌==◌, if◌then◌else◌, Run, ok, ◌>>=◌, read,
}
use tklb.Types.HeapBuffer.{Heap, HeapBuffer, push, object_at, remove_object}

-- `mEvents`, a buffer of subscriptions for each event.
pub record EventBus : Type 0 where
  pub events : List (HeapBuffer ℕ)

pub add_subscriber : (Heap → ℕ → Bool) → ℕ → ℕ → Heap → EventBus → Run (EventBus × Heap)
add_subscriber granted sub event h bus = read (get_elem? bus.events event) >>= λ b.
    push granted 8 0 sub h b >>= λ r. ok (record { events = set bus.events event r.1 }, r.2)

pub remove_subscriber : ℕ → ℕ → EventBus → Run EventBus
remove_subscriber sub event bus = read (get_elem? bus.events event) >>= λ b.
    remove_object (λ x y. x == y) sub b >>= λ r. ok (record { events = set bus.events event r.1 })

-- The loop of `fireEvent`, from the index `i` on, with the rounds left.
pub call_from : ℕ → ℕ → HeapBuffer ℕ → Run (List ℕ)
call_from zero i b = ok []
call_from (suc n) i b =
    let rest = call_from n (i + 1) b in
    object_at b.buf i >>= λ sub. rest >>= λ subs. ok (sub ∷ subs)

pub fire_event : ℕ → EventBus → Run (List ℕ)
unfolding call_from
fire_event event bus =
    read (get_elem? bus.events event) >>= λ b. if b.size == 0 then ok [] else call_from b.size 0 b
