-- ===== src/Migration/Resolve.antt =====
-- The answer of MigrationRegistry.resolvePath (src/migrations/migrationRegistry.ts).
use axionvera_sdk.Prelude.{
  ◌+◌, ◌≡◌, refl, ap, ◌∙◌, ◌⊎◌, inl, inr, String, true, false, Option, none, some, List, [], ◌∷◌,
  length, length-keep-le, str_eq, eq_iff, ok, err, arith, Bool-cases, Option-cases, All, In, not,
}
use axionvera_sdk.Migration.Types.{Step, Plan}
use axionvera_sdk.Migration.Registry.{
  Registry, PathNotFound, search, list_steps, is_visited, resolve_path,
}
use axionvera_sdk.Migration.Scan.{IsChain}
use axionvera_sdk.Migration.Paths.{edges, search-IsPath, search-none, closed-no_chain}
use axionvera_sdk.Migration.Fuel.{search-returns}

module _ {S : Type 0} (m : Registry S) (contract from to : String) where
  abbrev pub plan_of : List (Step S) → Plan S
  plan_of p = record { contract_id = contract; from_version = from; to_version = to; steps = p }

  abbrev pub no_path : PathNotFound
  no_path = record { contract_id = contract; from_version = from; to_version = to }

  -- A chain of steps of the contract from one version to the other.
  pub record Connects (p : List (Step S)) : Type 0 where
    pub chain : IsChain from p to
    pub registered : All (λ s. In s (list_steps m contract)) p

  search_all : Option (Option (List (Step S)))
  search_all =
      search (edges (list_steps m contract) to) to (2 + length (list_steps m contract)) (from ∷ [])
        ((from, []) ∷ [])

  resolve-same : str_eq from to ≡ true → resolve_path m contract from to ≡ some (ok (plan_of []))
  unfolding resolve_path
  resolve-same e = rw (e, resolve_path) refl

  resolve-found :
      (p : List (Step S))
      → str_eq from to ≡ false
      → search_all ≡ some (some p)
      → resolve_path m contract from to ≡ some (ok (plan_of p))
  unfolding resolve_path search_all
  resolve-found p e h = rw (e, h, resolve_path) refl

  resolve-none :
      str_eq from to ≡ false
      → search_all ≡ some none
      → resolve_path m contract from to ≡ some (err no_path)
  unfolding resolve_path search_all
  resolve-none e h = rw (e, h, resolve_path) refl

  search_all-returns : (r : Option (List (Step S))) × (search_all ≡ some r)
  unfolding search_all
  search_all-returns =
      let steps = list_steps m contract in
      search-returns steps to (2 + length steps) (from ∷ []) ((from, []) ∷ [])
        (omega (arith, length-keep-le (λ e. not (is_visited (from ∷ []) e.to_version)) steps))

  search_all-Connects : (p : List (Step S)) → search_all ≡ some (some p) → Connects p
  unfolding search_all
  search_all-Connects p h =
      let steps = list_steps m contract in
      let (chain, all) =
        search-IsPath steps to from (2 + length steps) (from ∷ []) ((from, []) ∷ []) p
          ((refl, tt), tt) h in
      record { chain = chain; registered = all }

  search_all_complete :
      str_eq from to ≡ false → search_all ≡ some none → (p : List (Step S)) → ¬ Connects p
  unfolding search_all
  search_all_complete e h p c =
      let steps = list_steps m contract in
      let (vs, keeps, closed) =
        search-none steps to (2 + length steps) (from ∷ []) ((from, []) ∷ [])
          (λ v i. inl (elim i [ inl same ↦ inl same | inr none_left ↦ absurd none_left ])) h in
      closed-no_chain steps to vs from p closed (keeps from (inl refl)) e c.chain c.registered

  -- `resolvePath` always returns. It gives a plan whose steps are registered for the contract and lead,
  -- one after the other, from the first version to the second, or throws, and then there is no such
  -- chain of steps.
  pub resolve_path_cases :
      ((p : List (Step S)) × (resolve_path m contract from to ≡ some (ok (plan_of p))) × Connects p)
      ⊎ ((resolve_path m contract from to ≡ some (err no_path))
          × ((p : List (Step S)) → ¬ Connects p))
  resolve_path_cases = elim (Bool-cases (str_eq from to)) [
    | inl same ↦
        inl ([], resolve-same same, record { chain = (eq_iff from to).0 same; registered = tt })
    | inr differs ↦
        let (r, returns) = search_all-returns in
        elim (Option-cases r) [
          | inl nothing ↦
              let h = returns ∙ ap some nothing in
              inr (resolve-none differs h, search_all_complete differs h)
          | inr (p, path) ↦
              let h = returns ∙ ap some path in
              inl (p, resolve-found p differs h, search_all-Connects p h)
        ]
  ]
