-- ===== src/Network/Picks.antt =====
-- The endpoint that RpcEndpointManager picks (src/network/rpcEndpointManager.ts).
use axionvera_sdk.Prelude.{
  subst, ℕ, zero, suc, ◌+◌, ◌*◌, ◌%◌, ◌≡◌, refl, sym, ◌⊎◌, inl, inr, true, false, some, List, [],
  ◌∷◌, keep, length, get_elem?, leb, or_else, is_some, In, In-keep_iff, Bool-cases, Option-cases,
}
use axionvera_sdk.Network.Endpoints.{
  Policy, round_robin, weighted, least_latency, primary_fallback, Entry, Monitor, Draw,
  pick_weighted, latency, is_faster, fastest, insert, sort, head_or, pick,
}

In-get_elem? : (xs : List Entry) (n : ℕ) (a : Entry) → get_elem? xs n ≡ some a → In a xs
In-get_elem? [] n a h = cc
In-get_elem? (x ∷ xs) zero a h = inl (cc h)
In-get_elem? (x ∷ xs) (suc n) a h = inr (In-get_elem? xs n a h)

In-or_else : (xs : List Entry) (n : ℕ) (e : Entry) → In e xs → In (or_else (get_elem? xs n) e) xs
In-or_else xs n e i = elim (Option-cases (get_elem? xs n)) [
  | inl h ↦ rw h i
  | inr (a, h) ↦ rw h (In-get_elem? xs n a h)
]

-- The three loops, one step each.
pick_weighted-stops :
    (drawn den passed : ℕ) (e f : Entry) (es : List Entry)
    → leb drawn (den * (passed + e.weight)) ≡ true
    → pick_weighted drawn den passed e (f ∷ es) ≡ e
unfolding pick_weighted
pick_weighted-stops drawn den passed e f es h = rw (h, pick_weighted) refl

pick_weighted-on :
    (drawn den passed : ℕ) (e f : Entry) (es : List Entry)
    → leb drawn (den * (passed + e.weight)) ≡ false
    → pick_weighted drawn den passed e (f ∷ es) ≡ pick_weighted drawn den (passed + e.weight) f es
unfolding pick_weighted
pick_weighted-on drawn den passed e f es h = rw (h, pick_weighted) refl

In-pick_weighted :
    (drawn den passed : ℕ) (e : Entry) (es : List Entry)
    → In (pick_weighted drawn den passed e es) (e ∷ es)
unfolding pick_weighted
In-pick_weighted drawn den passed e [] = inl refl
In-pick_weighted drawn den passed e (f ∷ es) =
    elim (Bool-cases (leb drawn (den * (passed + e.weight)))) [
      | inl h ↦ inl (pick_weighted-stops drawn den passed e f es h)
      | inr h ↦
          subst (λ x. In x (e ∷ f ∷ es)) (sym (pick_weighted-on drawn den passed e f es h))
            (inr (In-pick_weighted drawn den (passed + e.weight) f es))
    ]

pub fastest-new :
    (monitor : Monitor) (best e : Entry) (es : List Entry)
    → is_faster (latency monitor e) (latency monitor best) ≡ true
    → fastest monitor best (e ∷ es) ≡ fastest monitor e es
unfolding fastest
fastest-new monitor best e es h = rw (h, fastest) refl

pub fastest-old :
    (monitor : Monitor) (best e : Entry) (es : List Entry)
    → is_faster (latency monitor e) (latency monitor best) ≡ false
    → fastest monitor best (e ∷ es) ≡ fastest monitor best es
unfolding fastest
fastest-old monitor best e es h = rw (h, fastest) refl

pub In-fastest :
    (monitor : Monitor) (best : Entry) (es : List Entry) → In (fastest monitor best es) (best ∷ es)
unfolding fastest
In-fastest monitor best [] = inl refl
In-fastest monitor best (e ∷ es) =
    elim (Bool-cases (is_faster (latency monitor e) (latency monitor best))) [
      | inl h ↦
          subst (λ x. In x (best ∷ e ∷ es)) (sym (fastest-new monitor best e es h))
            (inr (In-fastest monitor e es))
      | inr h ↦
          subst (λ x. In x (best ∷ e ∷ es)) (sym (fastest-old monitor best e es h))
            (elim (In-fastest monitor best es) [
              | inl same ↦ inl same
              | inr there ↦ inr (inr there)
            ])
    ]

pub insert-first :
    (e f : Entry) (es : List Entry)
    → leb e.priority f.priority ≡ true
    → insert e (f ∷ es) ≡ e ∷ f ∷ es
unfolding insert
insert-first e f es h = rw (h, insert) refl

pub insert-later :
    (e f : Entry) (es : List Entry)
    → leb e.priority f.priority ≡ false
    → insert e (f ∷ es) ≡ f ∷ insert e es
unfolding insert
insert-later e f es h = rw (h, insert) refl

In-insert : (e x : Entry) (es : List Entry) → In x (insert e es) → (x ≡ e) ⊎ In x es
unfolding insert
In-insert e x [] i = i
In-insert e x (f ∷ es) i = elim (Bool-cases (leb e.priority f.priority)) [
  | inl h ↦ subst (In x) (insert-first e f es h) i
  | inr h ↦ elim (subst (In x) (insert-later e f es h) i) [
    | inl same ↦ inr (inl same)
    | inr there ↦ elim (In-insert e x es there) [ inl same ↦ inl same | inr old ↦ inr (inr old) ]
  ]
]

In-sort : (x : Entry) (es : List Entry) → In x (sort es) → In x es
unfolding sort
In-sort x [] i = i
In-sort x (e ∷ es) i = elim (In-insert e x (sort es) i) [
  | inl same ↦ inl same
  | inr there ↦ inr (In-sort x es there)
]

In-head_or :
    (e : Entry) (es xs : List Entry)
    → ((x : Entry) → In x xs → In x (e ∷ es))
    → In (head_or e xs) (e ∷ es)
In-head_or e es [] within = inl refl
In-head_or e es (x ∷ xs) within = within x (inl refl)

In-with_data :
    (monitor : Monitor) (e : Entry) (es with_data : List Entry)
    → ((x : Entry) → In x with_data → In x (e ∷ es))
    → In (elim with_data [ [] ↦ e | f ∷ fs ↦ fastest monitor f fs ]) (e ∷ es)
In-with_data monitor e es [] within = inl refl
In-with_data monitor e es (f ∷ fs) within = within _ (In-fastest monitor f fs)

-- Every policy picks an endpoint of the pool.
pub In-pick :
    (policy : Policy) (monitor : Monitor) (draw : Draw) (rr : ℕ) (e : Entry) (es : List Entry)
    → In (pick policy monitor draw rr e es).0 (e ∷ es)
unfolding pick
In-pick round_robin monitor draw rr e es = In-or_else (e ∷ es) (rr % length (e ∷ es)) e (inl refl)
In-pick weighted monitor draw rr e es = In-pick_weighted _ draw.den 0 e es
In-pick least_latency monitor draw rr e es =
    In-with_data monitor e es (keep (λ x. is_some (latency monitor x)) (e ∷ es))
      (λ x i. ((In-keep_iff (λ x. is_some (latency monitor x)) x (e ∷ es)).0 i).0)
In-pick primary_fallback monitor draw rr e es =
    In-head_or e es (sort (e ∷ es)) (λ x i. In-sort x (e ∷ es) i)
