-- ===== src/Queue/Settled.antt =====
-- Every request of a ConcurrencyQueue (src/utils/concurrencyQueue.ts) is settled at most once.
use axionvera_sdk.Prelude.{
  ℕ, ◌+◌, ◌≤◌, ◌≡◌, refl, inl, inr, String, List, [], ◌∷◌, length, length-append, eq_iff, arith,
  Bool-cases, In, ltb,
}
use axionvera_sdk.Queue.State.{
  Settings, Request, State, start, start_requests, execute, finish, timeout_fires, throttle_fires,
  clear_queue, cancel_all, update_config, process_queue, new_queue, cancelled_one, queued_request,
}
use axionvera_sdk.Queue.Process.{refreshed, process_queue_cases}
use axionvera_sdk.Queue.Stats.{get_queue_status-refreshed}
use axionvera_sdk.Queue.Steps.{
  occurs, count_id, count_timed, count_settled, Step, submits, finishes, times_out, resumes, clears,
  updates, reads_status, Reach, here, next, occurs-clear_timer, count_id-append, count_timed-append,
  count_id-remove_first, count_timed-remove_first, count_timed-le, length-remove_first,
  count_id-pos, occurs-pos,
}

-- What holds of one id `j` and of the counter. A request with the id stands once in the queue, among the
-- running requests or among the settled ones, and has a live timeout only while it waits.
pub record Accounted (j : String) (s : State) : Type 0 where
  pub balanced :
      count_id j s.queue + count_id j s.running + count_settled j s.settled ≡ occurs j s.submitted
  pub once : occurs j s.submitted ≤ 1
  pub timed : occurs j s.timers ≤ count_timed j s.queue
  pub active : s.active_requests ≡ length s.running

-- The same for the loop of `processQueue`, whose queue is the list `rs`.
record Pending (j : String) (s : State) (rs : List Request) : Type 0 where
  balanced : count_id j rs + count_id j s.running + count_settled j s.settled ≡ occurs j s.submitted
  once : occurs j s.submitted ≤ 1
  timed : occurs j s.timers ≤ count_timed j rs
  active : s.active_requests ≡ length s.running

start-Pending :
    (j : String) (s : State) (r : Request) (rs : List Request)
    → Pending j s (r ∷ rs)
    → Pending j (start s r) rs
unfolding start
start-Pending j s r rs p = record {
  balanced = omega (arith, p.balanced, count_id-append j s.running (r ∷ []));
  once = p.once;
  timed = ground (arith, p.timed, occurs-clear_timer r.id j s.timers);
  active = omega (arith, p.active, length-append s.running (r ∷ []));
}

start_requests-Accounted :
    (j : String) (s : State) (rs : List Request)
    → Pending j s rs
    → Accounted j (start_requests s rs)
unfolding start_requests
start_requests-Accounted j s [] p = record {
  balanced = p.balanced;
  once = p.once;
  timed = p.timed;
  active = p.active;
}
start_requests-Accounted j s (r ∷ rs) p =
    elim (Bool-cases (ltb s.active_requests s.config.max_concurrent_requests)) [
      | inl go ↦ rw go (start_requests-Accounted j (start s r) rs (start-Pending j s r rs p))
      | inr stop ↦
          rw stop
            (record { balanced = p.balanced; once = p.once; timed = p.timed; active = p.active })
    ]

process_queue-Accounted :
    (j : String) (s : State) (now : ℕ) → Accounted j s → Accounted j (process_queue s now)
process_queue-Accounted j s now a =
    let (count, reset, e) = process_queue_cases s now in
    elim e [
      | inl started ↦ rw started (
          start_requests-Accounted j (refreshed s count reset) s.queue
            (record { balanced = a.balanced; once = a.once; timed = a.timed; active = a.active }))
      | inr waiting ↦
          rw waiting
            (record { balanced = a.balanced; once = a.once; timed = a.timed; active = a.active })
    ]

execute-Accounted :
    (j : String) (s : State) (id : String) (now : ℕ)
    → occurs id s.submitted ≡ 0
    → Accounted j s
    → Accounted j (execute s id now)
unfolding execute
execute-Accounted j s id now fresh a = process_queue-Accounted j _ now (record {
  balanced = omega (arith, a.balanced, count_id-append j s.queue (queued_request s id now ∷ []));
  once = ground (arith, fresh, a.once, eq_iff id j);
  timed = ground (arith, a.timed, count_timed-append j s.queue (queued_request s id now ∷ []));
  active = a.active;
})

finish-Accounted :
    (j : String) (s : State) (r : Request) (now : ℕ)
    → In r s.running
    → Accounted j s
    → Accounted j (finish s r.id now)
unfolding finish
finish-Accounted j s r now m a = process_queue-Accounted j _ now (record {
  balanced = ground (
    arith,
    a.balanced,
    count_id-remove_first r.id j s.running,
    count_id-pos r s.running m,
    eq_iff r.id j,
  );
  once = a.once;
  timed = a.timed;
  active = omega (arith, a.active, length-remove_first r s.running m);
})

timeout_fires-Accounted :
    (j : String) (s : State) (id : String)
    → In id s.timers
    → Accounted j s
    → Accounted j (timeout_fires s id)
unfolding timeout_fires
timeout_fires-Accounted j s id m a = record {
  balanced = ground (
    arith,
    a.balanced,
    a.timed,
    count_id-remove_first id j s.queue,
    count_timed-le j s.queue,
    occurs-pos id s.timers m,
    eq_iff id j,
  );
  once = a.once;
  timed =
      ground
        (arith, a.timed, occurs-clear_timer id j s.timers, count_timed-remove_first id j s.queue);
  active = a.active;
}

cancel_all-Accounted :
    (j : String) (s : State) (rs : List Request) → Pending j s rs → Accounted j (cancel_all s rs)
unfolding cancel_all
cancel_all-Accounted j s [] p = record {
  balanced = p.balanced;
  once = p.once;
  timed = p.timed;
  active = p.active;
}
cancel_all-Accounted j s (r ∷ rs) p = cancel_all-Accounted j (cancelled_one s r) rs (record {
  balanced = omega (arith, p.balanced);
  once = p.once;
  timed = ground (arith, p.timed, occurs-clear_timer r.id j s.timers);
  active = p.active;
})

Step-Accounted : {s t : State} (j : String) → Step s t → Accounted j s → Accounted j t
unfolding throttle_fires clear_queue update_config
Step-Accounted j (submits s id now fresh) a = execute-Accounted j s id now fresh a
Step-Accounted j (finishes s r now m) a = finish-Accounted j s r now m a
Step-Accounted j (times_out s id m) a = timeout_fires-Accounted j s id m a
Step-Accounted j (resumes s at now e) a =
    process_queue-Accounted j _ now
      (record { balanced = a.balanced; once = a.once; timed = a.timed; active = a.active })
Step-Accounted j (clears s) a =
    cancel_all-Accounted j _ s.queue
      (record { balanced = a.balanced; once = a.once; timed = a.timed; active = a.active })
Step-Accounted j (updates s g) a = record {
  balanced = a.balanced;
  once = a.once;
  timed = a.timed;
  active = a.active;
}
Step-Accounted j (reads_status s now) a =
    let (count, reset, e) = get_queue_status-refreshed s now in
    rw e (record { balanced = a.balanced; once = a.once; timed = a.timed; active = a.active })

-- From a new queue, over any submissions under fresh ids, completions, timeouts, throttle timers,
-- clearings, questions for the status and configuration changes: each submitted request is in exactly one place, waiting,
-- running or settled once; a request has a live queue timeout only while it waits, so a timeout never
-- rejects a request that has started; and the counter of active requests is their number.
pub Reach-Accounted :
    (limit : ℕ) (g : Settings) (now : ℕ) (j : String) {s : State}
    → Reach (new_queue limit g now) s
    → Accounted j s
unfolding new_queue
Reach-Accounted limit g now j here = record {
  balanced = refl;
  once = omega arith;
  timed = omega arith;
  active = refl;
}
Reach-Accounted limit g now j (next r st) = Step-Accounted j st (Reach-Accounted limit g now j r)
