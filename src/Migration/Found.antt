-- ===== src/Migration/Found.antt =====
-- What one entry of the queue of MigrationRegistry.resolvePath finds or adds
-- (src/migrations/migrationRegistry.ts).
use axionvera_sdk.Prelude.{
  subst, ◌≡◌, refl, sym, ◌∙◌, inl, inr, String, List, [], ◌∷◌, ◌++◌, str_eq, eq_iff, Bool-cases,
  All, In, All-append,
}
use axionvera_sdk.Migration.Types.{Step}
use axionvera_sdk.Migration.Registry.{Entry, found, scanned, is_visited, scan}
use axionvera_sdk.Migration.Scan.{found-not, same-queue, scan-goal, scan-old, scan-new}

module _ {S : Type 0} where
  found-inj : {p p' : List (Step S)} → found p ≡ found p' → p ≡ p'
  found-inj e = cc e

  none-found :
      (to : String) (path : List (Step S)) (vs : List String) (q : List (Entry S))
      (p : List (Step S))
      → scan to path [] vs q ≡ found p
      → ⊥
  unfolding scan
  none-found to path vs q p h = cc h

  -- The path that is found is the one of the entry and an edge to the goal.
  pub scan-found :
      (to : String) (path es : List (Step S)) (vs : List String) (q : List (Entry S))
      (p : List (Step S))
      → scan to path es vs q ≡ found p
      → (e : Step S) × In e es × (p ≡ path ++ e ∷ []) × (e.to_version ≡ to)
  scan-found to path [] vs q p h = absurd (none-found to path vs q p h)
  scan-found to path (d ∷ es) vs q p h = elim (Bool-cases (str_eq d.to_version to)) [
    | inl goal ↦ (
      d,
      inl refl,
      found-inj (sym h ∙ scan-goal to path d es vs q goal),
      (eq_iff d.to_version to).0 goal,
    )
    | inr on ↦ elim (Bool-cases (is_visited vs d.to_version)) [
      | inl old ↦
          let (e, i, same, goal) =
            scan-found to path es vs q p (sym (scan-old to path d es vs q on old) ∙ h) in
          (e, inr i, same, goal)
      | inr new ↦
          let (e, i, same, goal) =
            scan-found to path es (vs ++ d.to_version ∷ [])
              (q ++ (d.to_version, path ++ d ∷ []) ∷ []) p
              (sym (scan-new to path d es vs q on new) ∙ h) in
          (e, inr i, same, goal)
    ]
  ]

  -- What holds of the queue and of each step from the entry holds of the new queue.
  pub scan-All :
      (P : Entry S → Type 0) (to : String) (path es : List (Step S)) (vs : List String)
      (q : List (Entry S)) (vs' : List String) (q' : List (Entry S))
      → scan to path es vs q ≡ scanned vs' q'
      → All P q
      → ((e : Step S) → In e es → P (e.to_version, path ++ e ∷ []))
      → All P q'
  scan-All P to path [] vs q vs' q' h all next =
      subst (All P) (same-queue to path vs q vs' q' h) all
  scan-All P to path (d ∷ es) vs q vs' q' h all next = elim (Bool-cases (str_eq d.to_version to)) [
    | inl goal ↦ absurd (found-not (sym (scan-goal to path d es vs q goal) ∙ h))
    | inr on ↦ elim (Bool-cases (is_visited vs d.to_version)) [
      | inl old ↦
          scan-All P to path es vs q vs' q' (sym (scan-old to path d es vs q on old) ∙ h) all
            (λ e i. next e (inr i))
      | inr new ↦
          let entry : Entry S = (d.to_version, path ++ d ∷ []) in
          scan-All P to path es (vs ++ d.to_version ∷ []) (q ++ entry ∷ []) vs' q'
            (sym (scan-new to path d es vs q on new) ∙ h)
            (All-append P q (entry ∷ []) all (next d (inl refl), tt)) (λ e i. next e (inr i))
    ]
  ]
