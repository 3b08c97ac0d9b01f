-- ===== src/Queue/Process.antt =====
-- What one call of processQueue (src/utils/concurrencyQueue.ts) starts, and in which order.
use axionvera_sdk.Prelude.{
  ℕ, zero, suc, ◌+◌, ◌-◌, ◌≤◌, ◌≡◌, refl, sym, ◌∙◌, ◌⊎◌, inl, inr, true, false, some, List, [], ◌∷◌,
  ◌++◌, append_assoc, append-nil, length, ltb, leb, min, take, drop, arith, Bool-cases,
}
use axionvera_sdk.Queue.State.{Request, State, start, start_requests, process_queue}

-- How many requests there is room for, of those that wait.
abbrev pub room : State → List Request → ℕ
room s rs = min (s.config.max_concurrent_requests - s.active_requests) (length rs)

pub record Started (s t : State) (rs : List Request) (n : ℕ) : Type 0 where
  pub running : t.running ≡ s.running ++ take n rs
  pub queue : t.queue ≡ drop n rs
  pub active : t.active_requests ≡ s.active_requests + n
  pub counted : t.requests_in_current_interval ≡ s.requests_in_current_interval + n
  pub config : t.config ≡ s.config
  pub timer : t.throttle_timer ≡ s.throttle_timer
  pub settled : t.settled ≡ s.settled
  pub submitted : t.submitted ≡ s.submitted

start_requests-full :
    (s : State) (rs : List Request)
    → s.config.max_concurrent_requests ≤ s.active_requests
    → start_requests s rs ≡ record s { queue = rs }
unfolding start_requests
start_requests-full s [] h = refl
start_requests-full s (r ∷ rs) h = ground arith

start_requests-Started :
    (s : State) (rs : List Request) (n : ℕ) → n ≡ room s rs → Started s (start_requests s rs) rs n
unfolding start_requests
start_requests-Started s [] zero h = record {
  running = sym (append-nil _);
  queue = refl;
  active = omega arith;
  counted = omega arith;
  config = refl;
  timer = refl;
  settled = refl;
  submitted = refl;
}
start_requests-Started s (r ∷ rs) zero h =
    let stop : ltb s.active_requests s.config.max_concurrent_requests ≡ false = ground arith in
    rw stop (record {
      running = sym (append-nil _);
      queue = refl;
      active = omega arith;
      counted = omega arith;
      config = refl;
      timer = refl;
      settled = refl;
      submitted = refl;
    })
start_requests-Started s [] (suc n) h = absurd (omega arith)
start_requests-Started s (r ∷ rs) (suc n) h =
    let go : ltb s.active_requests s.config.max_concurrent_requests ≡ true = ground arith in
    let ih = start_requests-Started (start s r) rs n (omega arith) in
    rw go (record {
      running = ih.running ∙ append_assoc s.running (r ∷ []) (take n rs);
      queue = ih.queue;
      active = omega (arith, ih.active);
      counted = omega (arith, ih.counted);
      config = ih.config;
      timer = ih.timer;
      settled = ih.settled;
      submitted = ih.submitted;
    })

process_queue-off :
    (s : State) (now : ℕ)
    → s.config.enable_throttling ≡ false
    → process_queue s now ≡ start_requests s s.queue
unfolding process_queue
process_queue-off s now h = ground arith

-- Unless it is throttled, `processQueue` starts requests from the front of the queue, in order, as long
-- as there is room under the limit: exactly the smaller of the free places and the queue's length.
pub process_queue-Started :
    (s : State) (now : ℕ)
    → s.config.enable_throttling ≡ false
    → Started s (process_queue s now) s.queue (room s s.queue)
process_queue-Started s now h =
    rw (process_queue-off s now h) (start_requests-Started s s.queue _ refl)

-- A process step is the loop, or a timer for the next one, after the counter may have been reset.
abbrev pub refreshed : State → ℕ → ℕ → State
refreshed s count reset = record s {
  requests_in_current_interval = count;
  last_throttle_reset = reset;
}

pub process_queue_cases :
    (s : State) (now : ℕ)
    → (count : ℕ) × (reset : ℕ) × ((process_queue s now
          ≡ start_requests (refreshed s count reset) s.queue)
        ⊎ (process_queue s now ≡ record (refreshed s count reset) {
          throttle_timer = some (now + (s.config.throttle_interval + reset - now));
        }))
unfolding process_queue
process_queue_cases s now = elim (Bool-cases s.config.enable_throttling) [
  | inr off ↦ (s.requests_in_current_interval, s.last_throttle_reset, inl (rw off))
  | inl on ↦ elim (Bool-cases (leb (s.last_throttle_reset + s.config.throttle_interval) now)) [
    | inl due ↦ (0, now, inl (rw (on, due)))
    | inr early ↦ elim (Bool-cases (leb s.config.throttle_rate s.requests_in_current_interval)) [
      | inl full ↦
          (s.requests_in_current_interval, s.last_throttle_reset, inr (rw (on, early, full)))
      | inr free ↦
          (s.requests_in_current_interval, s.last_throttle_reset, inl (rw (on, early, free)))
    ]
  ]
]
