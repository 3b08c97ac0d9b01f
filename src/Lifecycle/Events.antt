-- ===== src/Lifecycle/Events.antt =====
-- src/events/lifecycleEvents.ts: subscriptions to lifecycle events. A listener is known by its
-- subscription: the number `n` stands for the id `lifecycle-sub-n`. Listeners return normally.
use axionvera_sdk.Prelude.{
  ℕ, String, ◌+◌, Bool, true, false, not, Option, none, some, List, [], ◌∷◌, ◌++◌, any, same,
  if◌then◌else◌, str_eq, length, is_empty, ◌==◌,
}
use axionvera_sdk.Lifecycle.State.{State}

pub data EventType : Type 0 where
  was_created moved was_completed was_failed : EventType

unfoldable pub EventType-discrete : Discrete EventType
EventType-discrete = hlevel

pub record ErrorInfo : Type 0 where
  pub name : String
  pub message : String

-- A value of type `unknown`: an `Error` with its name and message, `undefined`, or any other value
-- by its `String(value)`.
pub data Value : Type 0 where
  thrown : ErrorInfo → Value
  undef : Value
  other : String → Value

pub record LifecycleEvent : Type 0 where
  pub type : EventType
  pub transaction_id : String
  pub previous_state : Option State
  pub state : State
  pub timestamp : ℕ
  pub details : Option (List (String × Value))
  pub error : Option ErrorInfo

pub record Filter : Type 0 where
  pub transaction_id : Option String
  pub types : Option (List EventType)

pub record Emitter : Type 0 where
  pub listeners : List (ℕ × Option Filter)
  pub next_id : ℕ

abbrev pub new_emitter : Emitter
new_emitter = record { listeners = []; next_id = 0 }

unfoldable pub subscribe : Emitter → Option Filter → Emitter × ℕ
subscribe e f =
    let id = e.next_id + 1 in (record { listeners = e.listeners ++ (id, f) ∷ []; next_id = id }, id)

unfoldable pub remove_listener : ℕ → List (ℕ × Option Filter) → List (ℕ × Option Filter)
remove_listener n [] = []
remove_listener n ((k, f) ∷ ls) = if k == n then ls else (k, f) ∷ remove_listener n ls

unfoldable pub has_listener : ℕ → List (ℕ × Option Filter) → Bool
has_listener n ls = any (λ l. l.0 == n) ls

unfoldable pub unsubscribe : Emitter → ℕ → Emitter × Bool
unfolding remove_listener has_listener
unsubscribe e n =
    (record e { listeners = remove_listener n e.listeners }, has_listener n e.listeners)

-- `filter.transactionId && filter.transactionId !== event.transactionId`: an empty id is no filter.
unfoldable pub passes_id : Option String → String → Bool
passes_id none id = true
passes_id (some want) id = if str_eq want "" then true else str_eq want id

-- `filter.types?.length && !filter.types.includes(event.type)`
unfoldable pub passes_type : Option (List EventType) → EventType → Bool
unfolding EventType-discrete
passes_type none t = true
passes_type (some ts) t = if is_empty ts then true else any (λ u. same EventType-discrete u t) ts

unfoldable pub matches_filter : LifecycleEvent → Option Filter → Bool
unfolding passes_id passes_type
matches_filter ev none = true
matches_filter ev (some f) =
    if not (passes_id f.transaction_id ev.transaction_id)
    then false
    else if not (passes_type f.types ev.type)
    then false
    else true

-- The listeners that `emit` calls, in order; the number that it returns is their count.
unfoldable pub called : LifecycleEvent → List (ℕ × Option Filter) → List ℕ
unfolding matches_filter
called ev [] = []
called ev ((k, f) ∷ ls) = if matches_filter ev f then k ∷ called ev ls else called ev ls

unfoldable pub emit : Emitter → LifecycleEvent → List ℕ × ℕ
unfolding called
emit e ev = let ks = called ev e.listeners in (ks, length ks)

unfoldable pub get_listener_count : Emitter → ℕ
get_listener_count e = length e.listeners
