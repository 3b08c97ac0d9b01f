-- ===== src/Migration/Paths.antt =====
-- What MigrationRegistry.resolvePath finds (src/migrations/migrationRegistry.ts).
use axionvera_sdk.Prelude.{
  subst, ℕ, zero, suc, ◌≡◌, refl, sym, ◌∙◌, ◌⊎◌, inl, inr, String, false, Option, none, some, List,
  [], ◌∷◌, ◌++◌, str_eq, eq_iff, All, All-In, All-append, In, In-keep_iff,
}
use axionvera_sdk.Prelude.Dict.{Dict}
use axionvera_sdk.Migration.Types.{Step}
use axionvera_sdk.Migration.Registry.{
  Entry, ScanResult, found, scanned, scan, edges_by_from, search,
}
use axionvera_sdk.Migration.Edges.{leaving, bucket-leaving}
use axionvera_sdk.Migration.Found.{scan-found, scan-All}
use axionvera_sdk.Migration.Scan.{versions, IsChain, IsChain-append, Scanned, scan-Scanned}

pub ScanResult-cases :
    {S : Type 0} (r : ScanResult S)
    → ((p : List (Step S)) × (r ≡ found p))
      ⊎ ((vs : List String) × (q : List (Entry S)) × (r ≡ scanned vs q))
ScanResult-cases (found p) = inl (p, refl)
ScanResult-cases (scanned vs q) = inr (vs, q, refl)

module _ {S : Type 0} (steps : List (Step S)) (to : String) where
  abbrev pub edges : Dict (List (Step S))
  edges = edges_by_from [] steps

  pub search-found :
      (f : ℕ) (v : String) (path : List (Step S)) (vs : List String) (q : List (Entry S))
      (p : List (Step S))
      → scan to path (leaving v steps) vs q ≡ found p
      → search edges to (suc f) vs ((v, path) ∷ q) ≡ some (some p)
  unfolding search
  search-found f v path vs q p h = rw (bucket-leaving v steps, h, search) refl

  pub search-on :
      (f : ℕ) (v : String) (path : List (Step S)) (vs : List String) (q : List (Entry S))
      (vs' : List String) (q' : List (Entry S))
      → scan to path (leaving v steps) vs q ≡ scanned vs' q'
      → search edges to (suc f) vs ((v, path) ∷ q) ≡ search edges to f vs' q'
  unfolding search
  search-on f v path vs q vs' q' h = rw (bucket-leaving v steps, h, search) refl

  search-zero :
      (vs : List String) (q : List (Entry S)) {r : Option (List (Step S))}
      → search edges to zero vs q ≡ some r
      → ⊥
  unfolding search
  search-zero vs q h = cc h

  search-empty :
      (f : ℕ) (vs : List String) {p : List (Step S)}
      → search edges to (suc f) vs [] ≡ some (some p)
      → ⊥
  unfolding search
  search-empty f vs h = cc h

  none-not-some : {p : List (Step S)} → some (some p) ≡ some none → ⊥
  none-not-some h = cc h

  path-inj : {p p' : List (Step S)} → some (some p) ≡ some (some p') → p ≡ p'
  path-inj h = cc h

  -- The path of an entry is a chain of steps of the registry.
  abbrev pub IsPath : String → Entry S → Type 0
  IsPath from e = IsChain from e.1 e.0 × All (λ s. In s steps) e.1

  -- One more step from the version of an entry.
  IsPath-append :
      (from v : String) (path : List (Step S)) (e : Step S)
      → IsPath from (v, path)
      → In e (leaving v steps)
      → IsPath from (e.to_version, path ++ e ∷ [])
  IsPath-append from v path e (chain, all) i =
      let (there, leaves) = (In-keep_iff (λ s. str_eq s.from_version v) e steps).0 i in
      (
        IsChain-append from v path e chain ((eq_iff e.from_version v).0 leaves),
        All-append (λ s. In s steps) path (e ∷ []) all (there, tt),
      )

  pub search-IsPath :
      (from : String) (f : ℕ) (vs : List String) (q : List (Entry S)) (p : List (Step S))
      → All (IsPath from) q
      → search edges to f vs q ≡ some (some p)
      → IsPath from (to, p)
  search-IsPath from zero vs q p all h = absurd (search-zero vs q h)
  search-IsPath from (suc f) vs [] p all h = absurd (search-empty f vs h)
  search-IsPath from (suc f) vs ((v, path) ∷ q) p (good, all) h =
      elim (ScanResult-cases (scan to path (leaving v steps) vs q)) [
        | inl (p', e) ↦
            let (last, i, same, goal) = scan-found to path (leaving v steps) vs q p' e in
            let eq : path ++ last ∷ [] ≡ p =
              sym same ∙ path-inj (sym (search-found f v path vs q p' e) ∙ h) in
            subst (λ x. IsPath from (to, x)) eq
              (subst (λ w. IsPath from (w, path ++ last ∷ [])) goal
                (IsPath-append from v path last good i))
        | inr (vs', q', e) ↦
            search-IsPath from f vs' q' p
              (scan-All (IsPath from) to path (leaving v steps) vs q vs' q' e all
                (λ s i. IsPath-append from v path s good i))
              (sym (search-on f v path vs q vs' q' e) ∙ h)
      ]

  -- All edges from a version lead to visited ones that are not the goal.
  abbrev IsDone : List String → String → Type 0
  IsDone vs v = All (λ e. In e.to_version vs × (str_eq e.to_version to ≡ false)) (leaving v steps)

  -- A visited version waits in the queue, or all its edges were seen.
  abbrev pub IsClosed : List String → List (Entry S) → Type 0
  IsClosed vs q = (v : String) → In v vs → In v (versions q) ⊎ IsDone vs v

  All-In_mono :
      (es : List (Step S)) (vs vs' : List String)
      → ((v : String) → In v vs → In v vs')
      → All (λ e. In e.to_version vs × (str_eq e.to_version to ≡ false)) es
      → All (λ e. In e.to_version vs' × (str_eq e.to_version to ≡ false)) es
  All-In_mono [] vs vs' keeps h = tt
  All-In_mono (e ∷ es) vs vs' keeps ((i, on), h) =
      ((keeps e.to_version i, on), All-In_mono es vs vs' keeps h)

  scan-IsClosed :
      (v : String) (q : List (Entry S)) (path : List (Step S)) (vs vs' : List String)
      (q' : List (Entry S))
      → Scanned to (leaving v steps) vs q vs' q'
      → IsClosed vs ((v, path) ∷ q)
      → IsClosed vs' q'
  scan-IsClosed v q path vs vs' q' s closed w i = elim (s.queued w i) [
    | inr waits ↦ inl waits
    | inl old ↦ elim (closed w old) [
      | inl (inl same) ↦ inr (subst (IsDone vs') (sym same) s.covered)
      | inl (inr waits) ↦ inl (s.queues w waits)
      | inr seen ↦ inr (All-In_mono (leaving w steps) vs vs' s.keeps seen)
    ]
  ]

  pub search-none :
      (f : ℕ) (vs : List String) (q : List (Entry S))
      → IsClosed vs q
      → search edges to f vs q ≡ some none
      → (vs' : List String) × ((v : String) → In v vs → In v vs') × IsClosed vs' []
  search-none zero vs q closed h = absurd (search-zero vs q h)
  search-none (suc f) vs [] closed h = (vs, (λ v i. i), closed)
  search-none (suc f) vs ((v, path) ∷ q) closed h =
      elim (ScanResult-cases (scan to path (leaving v steps) vs q)) [
        | inl (p', e) ↦ absurd (none-not-some (sym (search-found f v path vs q p' e) ∙ h))
        | inr (vs', q', e) ↦
            let s = scan-Scanned to path (leaving v steps) vs q vs' q' e in
            let (last, keeps, done) =
              search-none f vs' q' (scan-IsClosed v q path vs vs' q' s closed)
                (sym (search-on f v path vs q vs' q' e) ∙ h) in
            (last, (λ w i. keeps w (s.keeps w i)), done)
      ]

  -- From a version of a closed set that is not the goal, no chain leads to the goal.
  pub closed-no_chain :
      (vs : List String) (v : String) (p : List (Step S))
      → IsClosed vs []
      → In v vs
      → str_eq v to ≡ false
      → IsChain v p to
      → All (λ s. In s steps) p
      → ⊥
  closed-no_chain vs v [] closed i on chain all = cc (on, (eq_iff v to).1 chain)
  closed-no_chain vs v (e ∷ p) closed i on (leaves, chain) (there, all) = elim (closed v i) [
    | inl waits ↦ absurd waits
    | inr done ↦
        let edge =
          (In-keep_iff (λ s. str_eq s.from_version v) e steps).1
            (there, (eq_iff e.from_version v).1 leaves) in
        let (next, on') = All-In _ e (leaving v steps) done edge in
        closed-no_chain vs e.to_version p closed next on' chain all
  ]
