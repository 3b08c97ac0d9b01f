-- ===== src/Migration/Fuel.antt =====
-- MigrationRegistry.resolvePath always returns (src/migrations/migrationRegistry.ts), and with which answer.
use axionvera_sdk.Prelude.{
  subst, ℕ, zero, suc, ◌+◌, ◌≤◌, ◌<◌, ◌≡◌, refl, sym, ap, ◌∙◌, inl, inr, String, false, not, ◌||◌,
  Option, none, some, List, [], ◌∷◌, ◌++◌, keep, length, length-append, str_eq, eq_refl, arith,
  Bool-cases, In, In-keep_iff,
}
use axionvera_sdk.Migration.Types.{Step}
use axionvera_sdk.Migration.Registry.{Entry, scanned, is_visited, scan, search}
use axionvera_sdk.Migration.Edges.{leaving}
use axionvera_sdk.Migration.Scan.{
  scan-goal, scan-old, scan-new, found-not, same-queue, same-visited,
}
use axionvera_sdk.Migration.Paths.{ScanResult-cases, edges, search-found, search-on}

is_visited-append :
    (vs : List String) (w v : String)
    → is_visited (vs ++ w ∷ []) v ≡ (is_visited vs v || str_eq w v)
is_visited-append [] w v = ground arith
is_visited-append (u ∷ vs) w v = ground (arith, is_visited-append vs w v)

module _ {S : Type 0} where
  -- How many steps lead to a version that is not visited.
  abbrev pub unvisited : List String → List (Step S) → ℕ
  unvisited vs es = length (keep (λ e. not (is_visited vs e.to_version)) es)

  unvisited-le :
      (vs : List String) (w : String) (es : List (Step S))
      → unvisited (vs ++ w ∷ []) es ≤ unvisited vs es
  unvisited-le vs w [] = omega arith
  unvisited-le vs w (e ∷ es) =
      ground (arith, unvisited-le vs w es, is_visited-append vs w e.to_version)

  unvisited-lt :
      (vs : List String) (e : Step S) (es : List (Step S))
      → In e es
      → is_visited vs e.to_version ≡ false
      → unvisited (vs ++ e.to_version ∷ []) es < unvisited vs es
  unvisited-lt vs e [] h new = absurd h
  unvisited-lt vs e (d ∷ es) (inl same) new =
      let renamed : is_visited vs d.to_version ≡ false =
        subst (λ x. is_visited vs x.to_version ≡ false) same new in
      subst (λ x. unvisited (vs ++ x.to_version ∷ []) (d ∷ es) < unvisited vs (d ∷ es)) (sym same)
        (ground (
          arith,
          renamed,
          unvisited-le vs d.to_version es,
          is_visited-append vs d.to_version d.to_version,
          eq_refl d.to_version,
        ))
  unvisited-lt vs e (d ∷ es) (inr there) new =
      ground (arith, unvisited-lt vs e es there new, is_visited-append vs e.to_version d.to_version)

  -- Each version that a scan adds to the queue was not visited.
  scan-le :
      (steps : List (Step S)) (to : String) (path es : List (Step S)) (vs : List String)
      (q : List (Entry S)) (vs' : List String) (q' : List (Entry S))
      → ((e : Step S) → In e es → In e steps)
      → scan to path es vs q ≡ scanned vs' q'
      → unvisited vs' steps + length q' ≤ unvisited vs steps + length q
  scan-le steps to path [] vs q vs' q' known h =
      let same = same-queue to path vs q vs' q' h in
      let same' = same-visited to path vs q vs' q' h in
      omega (arith, ap length same, ap (λ x. unvisited x steps) same')
  scan-le steps to path (d ∷ es) vs q vs' q' known h = elim (Bool-cases (str_eq d.to_version to)) [
    | inl goal ↦ absurd (found-not (sym (scan-goal to path d es vs q goal) ∙ h))
    | inr on ↦ elim (Bool-cases (is_visited vs d.to_version)) [
      | inl old ↦
          scan-le steps to path es vs q vs' q' (λ e i. known e (inr i))
            (sym (scan-old to path d es vs q on old) ∙ h)
      | inr new ↦
          let entry : Entry S = (d.to_version, path ++ d ∷ []) in
          let rest =
            scan-le steps to path es (vs ++ d.to_version ∷ []) (q ++ entry ∷ []) vs' q'
              (λ e i. known e (inr i)) (sym (scan-new to path d es vs q on new) ∙ h) in
          omega (
            arith,
            rest,
            unvisited-lt vs d steps (known d (inl refl)) new,
            length-append q (entry ∷ []),
          )
    ]
  ]

  pub search-returns :
      (steps : List (Step S)) (to : String) (f : ℕ) (vs : List String) (q : List (Entry S))
      → unvisited vs steps + length q < f
      → (r : Option (List (Step S))) × (search (edges steps to) to f vs q ≡ some r)
  unfolding search
  search-returns steps to zero vs q h = absurd (omega arith)
  search-returns steps to (suc f) vs [] h = (none, refl)
  search-returns steps to (suc f) vs ((v, path) ∷ q) h =
      elim (ScanResult-cases (scan to path (leaving v steps) vs q)) [
        | inl (p, e) ↦ (some p, search-found steps to f v path vs q p e)
        | inr (vs', q', e) ↦
            let le =
              scan-le steps to path (leaving v steps) vs q vs' q'
                (λ s i. ((In-keep_iff (λ s. str_eq s.from_version v) s steps).0 i).0) e in
            let (r, returns) = search-returns steps to f vs' q' (omega (arith, le)) in
            (r, search-on steps to f v path vs q vs' q' e ∙ returns)
      ]
