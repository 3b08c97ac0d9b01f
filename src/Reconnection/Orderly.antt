-- ===== src/Reconnection/Orderly.antt =====
-- A ReconnectionManager (src/network/reconnectionManager.ts) whose client schedules only when idle.
use axionvera_sdk.Prelude.{
  ℕ, suc, ◌≤◌, ◌<◌, ◌≡◌, refl, ◌-◌, sym, ap, ◌∙◌, subst, ◌⊎◌, inl, inr, true, false, not, Option,
  none, some, List, [], ◌∷◌, ◌++◌, any, keep, arith, Bool-cases, leb, ◌==◌,
}
use axionvera_sdk.Reconnection.Manager.{
  disconnected, reconnecting, PartialConfig, Timer, Manager, new_manager, on_state_change,
  remove_listener, schedule_reconnect, fires, connects, rejects, delay_of, transition, set_timer,
  without_timer,
}
use axionvera_sdk.Reconnection.Steps.{
  IsIdle, IsWaiting, IsOrderly, Step, schedules, timer_fires, call_resolves, call_rejects, is_up,
  is_down, resets, subscribes, unsubscribes, Reach, here, next,
}

pub schedule_over :
    (m : Manager)
    → leb m.config.max_attempts m.attempts ≡ true
    → schedule_reconnect m ≡ transition disconnected none m
unfolding schedule_reconnect
schedule_over m h = rw (h, schedule_reconnect) refl

pub schedule_on :
    (m : Manager)
    → leb m.config.max_attempts m.attempts ≡ false
    → schedule_reconnect m
      ≡ set_timer (delay_of m.config m.attempts) (transition reconnecting (some (suc m.attempts)) m)
unfolding schedule_reconnect
schedule_on m h = rw (h, schedule_reconnect) refl

-- What scheduling leaves: where attempts are left, one timer.
pub schedule-IsWaiting :
    (m : Manager) → IsIdle m → m.attempts < m.config.max_attempts → IsWaiting (schedule_reconnect m)
schedule-IsWaiting m h k =
    let under : leb m.config.max_attempts m.attempts ≡ false = ground arith in
    subst IsWaiting (sym (schedule_on m under)) (record {
      set_timer = record { id = m.next_timer; delay = delay_of m.config m.attempts };
      only =
          ap (λ ts. ts ++ record { id = m.next_timer; delay = delay_of m.config m.attempts } ∷ [])
            h.no_timer;
      handle = refl;
      delayed = refl;
      left_over = k;
      no_call = h.no_call;
      in_state = refl;
    })

IsWaiting-IsOrderly : (m : Manager) → IsWaiting m → IsOrderly m
IsWaiting-IsOrderly m h = record {
  waits = inr h;
  at_most_one = omega (arith, h.no_call);
  bounded = omega (arith, h.left_over);
}

schedule_reconnect-IsOrderly :
    (m : Manager) → IsIdle m → m.attempts ≤ m.config.max_attempts → IsOrderly (schedule_reconnect m)
schedule_reconnect-IsOrderly m h k = elim (Bool-cases (leb m.config.max_attempts m.attempts)) [
  | inl over ↦
      subst IsOrderly (sym (schedule_over m over))
        (record { waits = inl h.no_timer; at_most_one = omega (arith, h.no_call); bounded = k })
  | inr under ↦ IsWaiting-IsOrderly _ (schedule-IsWaiting m h (ground arith))
]

without_timer-nil : (o : Option ℕ) → without_timer o [] ≡ []
without_timer-nil none = refl
without_timer-nil (some i) = refl

keep-only : (i : ℕ) (t : Timer) → t.id ≡ i → keep (λ u. not (u.id == i)) (t ∷ []) ≡ []
keep-only i t h = ground arith

-- After `clearTimer` no timer is set.
cleared : (m : Manager) → (m.pending ≡ []) ⊎ IsWaiting m → without_timer m.timer m.pending ≡ []
cleared m (inl h) = rw h (without_timer-nil m.timer)
cleared m (inr h) = rw (h.handle, h.only) (keep-only h.set_timer.id h.set_timer refl)

fires_other : (i : ℕ) (m : Manager) → any (λ t. t.id == i) m.pending ≡ false → fires i m ≡ m
unfolding fires
fires_other i m h = rw (h, fires) refl

-- A timer that fires was the one that is set, and no timer is left.
pub fires_only :
    (i : ℕ) (m : Manager) (h : IsWaiting m)
    → h.set_timer.id ≡ i
    → fires i m ≡ record m { pending = []; attempts = suc m.attempts; in_flight = suc m.in_flight }
unfolding fires
fires_only i m h same =
    let there : any (λ t. t.id == i) (h.set_timer ∷ []) ≡ true = ground arith in
    rw (h.only, there, keep-only i h.set_timer same) refl

fires-IsOrderly : (i : ℕ) (m : Manager) → IsOrderly m → IsOrderly (fires i m)
fires-IsOrderly i m h = elim h.waits [
  | inl none_set ↦ subst IsOrderly (sym (fires_other i m (ap (any (λ t. t.id == i)) none_set))) h
  | inr w ↦ elim (Bool-cases (w.set_timer.id == i)) [
    | inl e ↦ subst IsOrderly (sym (fires_only i m w (ground arith))) (record {
      waits = inl refl;
      at_most_one = omega (arith, w.no_call);
      bounded = omega (arith, w.left_over);
    })
    | inr e ↦
        let other : any (λ t. t.id == i) (w.set_timer ∷ []) ≡ false = ground arith in
        subst IsOrderly (sym (fires_other i m (ap (any (λ t. t.id == i)) w.only ∙ other))) h
  ]
]

pub rejects_some :
    (m : Manager)
    → 0 < m.in_flight
    → rejects m ≡ schedule_reconnect (record m { in_flight = m.in_flight - 1 })
unfolding rejects
rejects_some m h = let test : (m.in_flight == 0) ≡ false = ground arith in rw test refl

rejects_none : (m : Manager) → m.in_flight ≡ 0 → rejects m ≡ m
unfolding rejects
rejects_none m h = let test : (m.in_flight == 0) ≡ true = ground arith in rw test refl

rejects-IsOrderly : (m : Manager) → IsOrderly m → IsOrderly (rejects m)
rejects-IsOrderly m h = elim h.waits [
  | inr w ↦ subst IsOrderly (sym (rejects_none m w.no_call)) h
  | inl none_set ↦ elim (Bool-cases (m.in_flight == 0)) [
    | inl z ↦ subst IsOrderly (sym (rejects_none m (ground arith))) h
    | inr one ↦ subst IsOrderly (sym (rejects_some m (ground arith))) (
        schedule_reconnect-IsOrderly (record m { in_flight = m.in_flight - 1 })
          (record { no_timer = none_set; no_call = omega (arith, h.at_most_one) }) h.bounded)
  ]
]

-- Neither the listeners nor the end of a call take a part in it.
apart :
    (m : Manager) (ls : List ℕ) (n : ℕ)
    → n ≤ m.in_flight
    → IsOrderly m
    → IsOrderly (record m { listeners = ls; in_flight = n })
apart m ls n k h = record {
  waits = elim h.waits [
    | inl none_set ↦ inl none_set
    | inr w ↦ inr (record {
      set_timer = w.set_timer;
      only = w.only;
      handle = w.handle;
      delayed = w.delayed;
      left_over = w.left_over;
      no_call = omega (arith, w.no_call);
      in_state = w.in_state;
    })
  ];
  at_most_one = omega (arith, h.at_most_one);
  bounded = h.bounded;
}

on_state_change-IsOrderly : (m : Manager) (l : ℕ) → IsOrderly m → IsOrderly (on_state_change l m)
unfolding on_state_change
on_state_change-IsOrderly m l h = elim (Bool-cases (any (λ k. k == l) m.listeners)) [
  | inl e ↦ rw e h
  | inr e ↦ rw e (apart m (m.listeners ++ l ∷ []) m.in_flight (omega arith) h)
]

Step-IsOrderly : {m n : Manager} → Step m n → IsOrderly m → IsOrderly n
unfolding connects remove_listener
Step-IsOrderly (schedules m i) h = schedule_reconnect-IsOrderly m i h.bounded
Step-IsOrderly (timer_fires m i) h = fires-IsOrderly i m h
Step-IsOrderly (call_resolves m) h = apart m m.listeners (m.in_flight - 1) (omega arith) h
Step-IsOrderly (call_rejects m) h = rejects-IsOrderly m h
Step-IsOrderly (is_up m) h = record {
  waits = inl (cleared m h.waits);
  at_most_one = h.at_most_one;
  bounded = omega arith;
}
Step-IsOrderly (is_down m) h = record {
  waits = inl (cleared m h.waits);
  at_most_one = h.at_most_one;
  bounded = h.bounded;
}
Step-IsOrderly (resets m) h = record {
  waits = inl (cleared m h.waits);
  at_most_one = h.at_most_one;
  bounded = omega arith;
}
Step-IsOrderly (subscribes m l) h = on_state_change-IsOrderly m l h
Step-IsOrderly (unsubscribes m l) h =
    apart m (keep (λ k. not (k == l)) m.listeners) m.in_flight (omega arith) h

-- However the events fall, as long as a client schedules only when no timer is set and no call runs: there is at
-- most one timer or call, the timer has its handle kept and the delay of the attempts so far, and the attempts are
-- never more than the configuration allows.
pub Reach-IsOrderly :
    (c : Option PartialConfig) (m : Manager) → Reach (new_manager c) m → IsOrderly m
unfolding new_manager
Reach-IsOrderly c m here = record {
  waits = inl refl;
  at_most_one = omega arith;
  bounded = omega arith;
}
Reach-IsOrderly c m (next r s) = Step-IsOrderly s (Reach-IsOrderly c _ r)
