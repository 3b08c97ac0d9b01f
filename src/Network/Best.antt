-- ===== src/Network/Best.antt =====
-- The policies of RpcEndpointManager that compare (src/network/rpcEndpointManager.ts).
use mathlib.Core.Option.{none-ne-some}
use axionvera_sdk.Prelude.{
  ap, ◌∙◌, List-cases, subst, ℕ, ◌≤◌, ◌≡◌, refl, sym, inl, inr, true, false, Option, none, some,
  List, [], ◌∷◌, keep, leb, is_some, arith, leb→le, All, In, Bool-cases,
}
use axionvera_sdk.Network.Endpoints.{
  least_latency, primary_fallback, Entry, Health, Monitor, Draw, latency, is_faster, fastest,
  insert, sort, head_or, pick,
}
use axionvera_sdk.Network.Picks.{insert-first, In-pick, insert-later, fastest-new, fastest-old}

-- A latency is not less than one that is less than neither.
is_faster_after :
    (a b c : Option ℕ) → is_faster a b ≡ true → is_faster a c ≡ false → is_faster b c ≡ false
unfolding is_faster
is_faster_after none b c h k = cc
is_faster_after (some a) none c h k = refl
is_faster_after (some a) (some b) none h k = cc
is_faster_after (some a) (some b) (some c) h k = ground (arith, h, k)

is_faster_trans :
    (a b c : Option ℕ) → is_faster a b ≡ false → is_faster b c ≡ false → is_faster a c ≡ false
unfolding is_faster
is_faster_trans none b c h k = refl
is_faster_trans (some a) none c h k = cc
is_faster_trans (some a) (some b) none h k = cc
is_faster_trans (some a) (some b) (some c) h k = ground (arith, h, k)

is_faster_irrefl : (a : Option ℕ) → is_faster a a ≡ false
unfolding is_faster
is_faster_irrefl none = refl
is_faster_irrefl (some a) = ground arith

-- No endpoint of a list has a lower latency than `r`.
abbrev pub IsFastest : Monitor → Entry → List Entry → Type 0
IsFastest monitor r = All (λ x. is_faster (latency monitor x) (latency monitor r) ≡ false)

fastest-IsFastest :
    (monitor : Monitor) (best : Entry) (es : List Entry)
    → IsFastest monitor (fastest monitor best es) (best ∷ es)
unfolding fastest
fastest-IsFastest monitor best [] = (is_faster_irrefl (latency monitor best), tt)
fastest-IsFastest monitor best (e ∷ es) =
    elim (Bool-cases (is_faster (latency monitor e) (latency monitor best))) [
      | inl h ↦
          let (first, rest) = fastest-IsFastest monitor e es in
          subst (λ r. IsFastest monitor r (best ∷ e ∷ es)) (sym (fastest-new monitor best e es h))
            (
              is_faster_after (latency monitor e) (latency monitor best)
                  (latency monitor (fastest monitor e es)) h first,
              (first, rest),
            )
      | inr h ↦
          let (first, rest) = fastest-IsFastest monitor best es in
          subst (λ r. IsFastest monitor r (best ∷ e ∷ es)) (sym (fastest-old monitor best e es h))
            (
              first,
              (
                is_faster_trans (latency monitor e) (latency monitor best)
                    (latency monitor (fastest monitor best es)) h first,
                rest,
              ),
            )
    ]

-- No endpoint of a list has a lower priority than `r`.
abbrev pub IsFirst : Entry → List Entry → Type 0
IsFirst r = All (λ x. r.priority ≤ x.priority)

IsFirst-le : (r s : Entry) (xs : List Entry) → r.priority ≤ s.priority → IsFirst s xs → IsFirst r xs
IsFirst-le r s [] h all = tt
IsFirst-le r s (x ∷ xs) h (p, all) = (omega (arith, h, p), IsFirst-le r s xs h all)

insert-head :
    (d e g : Entry) (gs : List Entry)
    → let r = head_or d (insert e (g ∷ gs)) in (r.priority ≤ e.priority) × (r.priority ≤ g.priority)
insert-head d e g gs = elim (Bool-cases (leb e.priority g.priority)) [
  | inl h ↦
      subst (λ xs. let r = head_or d xs in (r.priority ≤ e.priority) × (r.priority ≤ g.priority))
        (sym (insert-first e g gs h)) (omega arith, leb→le e.priority g.priority h)
  | inr h ↦
      subst (λ xs. let r = head_or d xs in (r.priority ≤ e.priority) × (r.priority ≤ g.priority))
        (sym (insert-later e g gs h)) (ground (arith, h), omega arith)
]

insert-nonempty : (e : Entry) (es : List Entry) → insert e es ≡ [] → ⊥
unfolding insert
insert-nonempty e [] h = cc h
insert-nonempty e (f ∷ es) h = ground (arith, h)

sort-IsFirst : (e : Entry) (es : List Entry) → IsFirst (head_or e (sort (e ∷ es))) (e ∷ es)
unfolding sort insert
sort-IsFirst e [] = (omega arith, tt)
sort-IsFirst e (f ∷ fs) = elim (List-cases (sort (f ∷ fs))) [
  | inl nil ↦ absurd (insert-nonempty f (sort fs) nil)
  | inr (g, gs, same) ↦
      let rest = subst (λ s. IsFirst (head_or f s) (f ∷ fs)) same (sort-IsFirst f fs) in
      let (le_e, le_g) = insert-head e e g gs in
      subst (λ s. IsFirst (head_or e (insert e s)) (e ∷ f ∷ fs)) (sym same)
        (le_e, IsFirst-le (head_or e (insert e (g ∷ gs))) g (f ∷ fs) le_g rest)
]

is_faster_none : (a b : Option ℕ) → is_some a ≡ false → is_faster a b ≡ false
unfolding is_faster
is_faster_none none b h = refl
is_faster_none (some a) b h = cc

-- An endpoint without a latency is not faster.
IsFastest-keep :
    (monitor : Monitor) (r : Entry) (xs : List Entry)
    → IsFastest monitor r (keep (λ x. is_some (latency monitor x)) xs)
    → IsFastest monitor r xs
IsFastest-keep monitor r [] h = tt
IsFastest-keep monitor r (x ∷ xs) h = elim (Bool-cases (is_some (latency monitor x))) [
  | inl has ↦
      let kept : keep (λ x. is_some (latency monitor x)) (x ∷ xs)
          ≡ x ∷ keep (λ x. is_some (latency monitor x)) xs =
        rw has refl in
      let (first, rest) = subst (IsFastest monitor r) kept h in
      (first, IsFastest-keep monitor r xs rest)
  | inr not_there ↦
      let kept : keep (λ x. is_some (latency monitor x)) (x ∷ xs)
          ≡ keep (λ x. is_some (latency monitor x)) xs =
        rw not_there refl in
      (
        is_faster_none (latency monitor x) (latency monitor r) not_there,
        IsFastest-keep monitor r xs (subst (IsFastest monitor r) kept h),
      )
]

with_data-IsFastest :
    (monitor : Monitor) (e : Entry) (pool with_data : List Entry)
    → keep (λ x. is_some (latency monitor x)) pool ≡ with_data
    → IsFastest monitor (elim with_data [ [] ↦ e | f ∷ fs ↦ fastest monitor f fs ]) pool
with_data-IsFastest monitor e pool [] same =
    IsFastest-keep monitor e pool (subst (IsFastest monitor e) (sym same) tt)
with_data-IsFastest monitor e pool (f ∷ fs) same =
    IsFastest-keep monitor (fastest monitor f fs) pool
      (subst (IsFastest monitor (fastest monitor f fs)) (sym same) (fastest-IsFastest monitor f fs))

-- The latency of no endpoint of a list, as the monitor has it, is lower than that of `r`: where one has a latency,
-- `r` has one that is not greater.
abbrev pub HasLeastLatency : Monitor → Entry → List Entry → Type 0
HasLeastLatency monitor r = All (λ x.
    (h : Health) (l : ℕ)
    → monitor x.id ≡ some h
    → h.average_latency_ms ≡ some l
    → (g : Health) × (k : ℕ) × (monitor r.id ≡ some g) × (g.average_latency_ms ≡ some k) × (k ≤ l))

abbrev average_of : Option Health → Option ℕ
average_of none = none
average_of (some h) = h.average_latency_ms

latency_average : (monitor : Monitor) (r : Entry) → latency monitor r ≡ average_of (monitor r.id)
latency_average monitor r = same_average (monitor r.id)
  where
    same_average :
        (o : Option Health) → elim o [ none ↦ none | some h ↦ h.average_latency_ms ] ≡ average_of o
    same_average none = refl
    same_average (some h) = refl

average-some :
    (o : Option Health) (k : ℕ)
    → average_of o ≡ some k
    → (g : Health) × (o ≡ some g) × (g.average_latency_ms ≡ some k)
average-some none k h = absurd (none-ne-some k h)
average-some (some g) k h = (g, refl, h)

not_faster-le :
    (l : ℕ) (o : Option ℕ) → is_faster (some l) o ≡ false → (k : ℕ) × (o ≡ some k) × (k ≤ l)
unfolding is_faster
not_faster-le l none h = cc
not_faster-le l (some k) h = (k, refl, ground arith)

IsFastest-HasLeastLatency :
    (monitor : Monitor) (r : Entry) (xs : List Entry)
    → IsFastest monitor r xs
    → HasLeastLatency monitor r xs
IsFastest-HasLeastLatency monitor r [] h = tt
IsFastest-HasLeastLatency monitor r (x ∷ xs) (first, h) = (
  (λ q l there given.
      let given_here = latency_average monitor x ∙ ap average_of there ∙ given in
      let slow = subst (λ o. is_faster o (latency monitor r) ≡ false) given_here first in
      let (k, has_it, le) = not_faster-le l (latency monitor r) slow in
      let (g, found, average) =
        average-some (monitor r.id) k (sym (latency_average monitor r) ∙ has_it) in
      (g, k, found, average, le)),
  IsFastest-HasLeastLatency monitor r xs h,
)

-- 'least-latency' picks an endpoint of the pool such that none has a lower average latency (one without a latency
-- counts as the highest), and
-- 'primary-fallback' one such that none has a lower priority number; they do not use the draw.
pub pick_best :
    (monitor : Monitor) (draw : Draw) (rr : ℕ) (e : Entry) (es : List Entry)
    → let x = (pick least_latency monitor draw rr e es).0 in
      let y = (pick primary_fallback monitor draw rr e es).0 in
      (In x (e ∷ es) × HasLeastLatency monitor x (e ∷ es)) × (In y (e ∷ es) × IsFirst y (e ∷ es))
unfolding pick
pick_best monitor draw rr e es = (
  (
    In-pick least_latency monitor draw rr e es,
    IsFastest-HasLeastLatency monitor (pick least_latency monitor draw rr e es).0 (e ∷ es) (
        with_data-IsFastest monitor e (e ∷ es) (keep (λ x. is_some (latency monitor x)) (e ∷ es))
          refl),
  ),
  (In-pick primary_fallback monitor draw rr e es, sort-IsFirst e es),
)
