-- ===== src/Queue/Steps.antt =====
-- The events that change a ConcurrencyQueue (src/utils/concurrencyQueue.ts), as a step relation.
use axionvera_sdk.Prelude.{
  ℕ, suc, ◌+◌, ◌-◌, ◌≤◌, ◌<◌, ◌≡◌, refl, String, false, some, List, [], ◌∷◌, ◌++◌, length,
  if◌then◌else◌, str_eq, eq_iff, arith, In,
}
use axionvera_sdk.Queue.State.{
  Settings, Request, Settlement, State, clear_timer, remove_first, execute, finish, timeout_fires,
  throttle_fires, clear_queue, update_config,
}
use axionvera_sdk.Queue.Stats.{get_queue_status}

-- How often an id stands in a list of ids, of requests, and of requests with a timeout.
abbrev pub occurs : String → List String → ℕ
occurs j [] = 0
occurs j (x ∷ xs) = (if str_eq x j then 1 else 0) + occurs j xs

abbrev pub count_id : String → List Request → ℕ
count_id j [] = 0
count_id j (r ∷ rs) = (if str_eq r.id j then 1 else 0) + count_id j rs

abbrev pub count_timed : String → List Request → ℕ
count_timed j [] = 0
count_timed j (r ∷ rs) =
    (if r.timeout_id then (if str_eq r.id j then 1 else 0) else 0) + count_timed j rs

abbrev pub count_settled : String → List (String × Settlement) → ℕ
count_settled j [] = 0
count_settled j ((i, how) ∷ xs) = (if str_eq i j then 1 else 0) + count_settled j xs

pub data Step : State → State → Type 0 where
  submits :
      (s : State) (id : String) (now : ℕ) → occurs id s.submitted ≡ 0 → Step s (execute s id now)
  finishes : (s : State) (r : Request) (now : ℕ) → In r s.running → Step s (finish s r.id now)
  times_out : (s : State) (id : String) → In id s.timers → Step s (timeout_fires s id)
  resumes : (s : State) (at now : ℕ) → s.throttle_timer ≡ some at → Step s (throttle_fires s now)
  clears : (s : State) → Step s (clear_queue s)
  updates : (s : State) (g : Settings) → Step s (update_config s g)
  reads_status : (s : State) (now : ℕ) → Step s (get_queue_status s now).1

pub data Reach (s : State) : State → Type 0 where
  here : Reach s s
  next : {t u : State} → Reach s t → Step t u → Reach s u

pub occurs-clear_timer :
    (i j : String) (ts : List String)
    → occurs j (clear_timer i ts) ≡ (if str_eq i j then 0 else occurs j ts)
unfolding clear_timer
occurs-clear_timer i j [] = ground arith
occurs-clear_timer i j (t ∷ ts) =
    ground (arith, occurs-clear_timer i j ts, eq_iff i j, eq_iff t i, eq_iff t j)

pub count_id-append :
    (j : String) (xs ys : List Request) → count_id j (xs ++ ys) ≡ count_id j xs + count_id j ys
count_id-append j [] ys = omega arith
count_id-append j (x ∷ xs) ys = ground (arith, count_id-append j xs ys)

pub count_timed-append :
    (j : String) (xs ys : List Request)
    → count_timed j (xs ++ ys) ≡ count_timed j xs + count_timed j ys
count_timed-append j [] ys = omega arith
count_timed-append j (x ∷ xs) ys = ground (arith, count_timed-append j xs ys)

pub count_id-remove_first :
    (i j : String) (rs : List Request)
    → count_id j (remove_first i rs) ≡ count_id j rs - (if str_eq i j then 1 else 0)
unfolding remove_first
count_id-remove_first i j [] = omega arith
count_id-remove_first i j (r ∷ rs) =
    ground (arith, count_id-remove_first i j rs, eq_iff i j, eq_iff r.id i, eq_iff r.id j)

pub count_timed-remove_first :
    (i j : String) (rs : List Request)
    → str_eq i j ≡ false
    → count_timed j (remove_first i rs) ≡ count_timed j rs
unfolding remove_first
count_timed-remove_first i j [] h = refl
count_timed-remove_first i j (r ∷ rs) h =
    ground (arith, count_timed-remove_first i j rs h, eq_iff i j, eq_iff r.id i, eq_iff r.id j)

pub count_timed-le : (j : String) (rs : List Request) → count_timed j rs ≤ count_id j rs
count_timed-le j [] = omega arith
count_timed-le j (r ∷ rs) = ground (arith, count_timed-le j rs)

pub length-remove_first :
    (r : Request) (rs : List Request) → In r rs → suc (length (remove_first r.id rs)) ≡ length rs
unfolding remove_first
length-remove_first r [] m = absurd m
length-remove_first r (q ∷ rs) m = ground (arith, length-remove_first r rs, eq_iff q.id r.id)

pub count_id-pos : (r : Request) (rs : List Request) → In r rs → 0 < count_id r.id rs
count_id-pos r [] m = absurd m
count_id-pos r (q ∷ rs) m = ground (arith, count_id-pos r rs, eq_iff q.id r.id)

pub occurs-pos : (j : String) (ts : List String) → In j ts → 0 < occurs j ts
occurs-pos j [] m = absurd m
occurs-pos j (t ∷ ts) m = ground (arith, occurs-pos j ts, eq_iff t j)
