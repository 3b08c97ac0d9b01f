-- ===== src/Queue/Progress.antt =====
-- A ConcurrencyQueue (src/utils/concurrencyQueue.ts) with waiting requests always has an event pending
-- that will process them.
use axionvera_sdk.Prelude.{
  ℕ, ◌≤◌, ◌<◌, ◌≡◌, refl, ◌⊎◌, inl, inr, ◌≢◌, String, none, List, [], ◌∷◌, arith,
}
use axionvera_sdk.Queue.State.{
  Request, State, start, start_requests, remove_first, execute, finish, timeout_fires,
  throttle_fires, clear_queue, cancel_all, cancelled_one, update_config, process_queue,
  remove_from_queue,
}
use axionvera_sdk.Queue.Process.{refreshed, process_queue_cases}
use axionvera_sdk.Queue.Steps.{
  Step, submits, finishes, times_out, resumes, clears, updates, reads_status,
}
use axionvera_sdk.Queue.Stats.{get_queue_status-refreshed}

abbrev pub limit : State → ℕ
limit s = s.config.max_concurrent_requests

-- Nothing waits, or a running request will go on with the queue when it ends, or the throttle timer will.
abbrev pub IsAwake : State → Type 0
IsAwake s = (s.queue ≡ []) ⊎ ((0 < s.active_requests) ⊎ (s.throttle_timer ≢ none))

-- The loop of `processQueue` stops only at an empty queue or at the limit.
pub start_requests_stops :
    (s : State) (rs : List Request)
    → ((start_requests s rs).queue ≡ []) ⊎ (limit s ≤ (start_requests s rs).active_requests)
unfolding start_requests start
start_requests_stops s [] = inl refl
start_requests_stops s (r ∷ rs) = ground (arith, start_requests_stops (start s r) rs)

process_queue-IsAwake : (s : State) (now : ℕ) → 0 < limit s → IsAwake (process_queue s now)
process_queue-IsAwake s now h =
    let (count, reset, e) = process_queue_cases s now in
    elim e [
      | inl started ↦
          rw started (ground (arith, start_requests_stops (refreshed s count reset) s.queue))
      | inr waiting ↦ rw waiting (inr (inr (λ x. cc)))
    ]

cancel_all-queue : (s : State) (rs : List Request) → (cancel_all s rs).queue ≡ []
unfolding cancel_all
cancel_all-queue s [] = refl
cancel_all-queue s (r ∷ rs) = cancel_all-queue (cancelled_one s r) rs

remove_first-nil : (id : String) (rs : List Request) → rs ≡ [] → remove_first id rs ≡ []
unfolding remove_first
remove_first-nil id [] e = refl
remove_first-nil id (r ∷ rs) e = cc

-- With a positive limit, no event leaves requests waiting with nothing to wake the queue: not the end
-- of a request, a queue timeout, the throttle timer, a clearing, a question for the status, or a change of the
-- configuration to another positive limit.
pub Step-IsAwake : {s t : State} → Step s t → 0 < limit s → 0 < limit t → IsAwake s → IsAwake t
unfolding execute finish throttle_fires timeout_fires remove_from_queue clear_queue update_config
Step-IsAwake (submits s id now fresh) h k a = process_queue-IsAwake _ now h
Step-IsAwake (finishes s r now m) h k a = process_queue-IsAwake _ now h
Step-IsAwake (times_out s id m) h k (inl e) = inl (remove_first-nil id s.queue e)
Step-IsAwake (times_out s id m) h k (inr e) = inr e
Step-IsAwake (resumes s at now e) h k a = process_queue-IsAwake _ now h
Step-IsAwake (clears s) h k a = inl (cancel_all-queue _ s.queue)
Step-IsAwake (updates s g) h k a = a
Step-IsAwake (reads_status s now) h k a =
    let (count, reset, e) = get_queue_status-refreshed s now in rw e a

start_requests-le_limit :
    (s : State) (rs : List Request)
    → s.active_requests ≤ limit s
    → (start_requests s rs).active_requests ≤ limit (start_requests s rs)
unfolding start_requests start
start_requests-le_limit s [] h = h
start_requests-le_limit s (r ∷ rs) h = ground (arith, start_requests-le_limit (start s r) rs)

process_queue-le_limit :
    (s : State) (now : ℕ)
    → s.active_requests ≤ limit s
    → (process_queue s now).active_requests ≤ limit (process_queue s now)
process_queue-le_limit s now h =
    let (count, reset, e) = process_queue_cases s now in
    elim e [
      | inl started ↦ rw started (start_requests-le_limit (refreshed s count reset) s.queue h)
      | inr waiting ↦ rw waiting h
    ]

cancel_all-frame :
    (s : State) (rs : List Request)
    → ((cancel_all s rs).active_requests ≡ s.active_requests) × (limit (cancel_all s rs) ≡ limit s)
unfolding cancel_all
cancel_all-frame s [] = (refl, refl)
cancel_all-frame s (r ∷ rs) = cancel_all-frame (cancelled_one s r) rs

-- No event takes the number of active requests over the limit, unless it lowers the limit itself.
pub Step-le_limit :
    {s t : State}
    → Step s t
    → limit s ≤ limit t
    → s.active_requests ≤ limit s
    → t.active_requests ≤ limit t
unfolding execute finish throttle_fires timeout_fires remove_from_queue clear_queue update_config
Step-le_limit (submits s id now fresh) k h = process_queue-le_limit _ now h
Step-le_limit (finishes s r now m) k h = process_queue-le_limit _ now (omega arith)
Step-le_limit (times_out s id m) k h = h
Step-le_limit (resumes s at now e) k h = process_queue-le_limit _ now h
Step-le_limit (clears s) k h =
    let (active, same) = cancel_all-frame (record s { throttle_timer = none }) s.queue in
    rw (active, same) h
Step-le_limit (updates s g) k h = omega arith
Step-le_limit (reads_status s now) k h =
    let (count, reset, e) = get_queue_status-refreshed s now in rw e h
