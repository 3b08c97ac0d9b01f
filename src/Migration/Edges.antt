-- ===== src/Migration/Edges.antt =====
-- The buckets of edges that MigrationRegistry.resolvePath makes (src/migrations/migrationRegistry.ts).
use axionvera_sdk.Prelude.{
  inl, inr, keep-append, ◌≡◌, sym, ap, ◌∙◌, String, List, [], ◌∷◌, ◌++◌, append_assoc, append-nil,
  keep, str_eq, eq_iff, or_else, Bool-cases,
}
use axionvera_sdk.Prelude.Dict.{Dict, get, get-set}
use axionvera_sdk.Migration.Types.{Step}
use axionvera_sdk.Migration.Registry.{add_edge, edges_by_from}

module _ {S : Type 0} where
  abbrev pub bucket : String → Dict (List (Step S)) → List (Step S)
  bucket v m = or_else (get v m) []

  abbrev pub leaving : String → List (Step S) → List (Step S)
  leaving v es = keep (λ e. str_eq e.from_version v) es

  bucket-add_edge :
      (v : String) (m : Dict (List (Step S))) (e : Step S)
      → bucket v (add_edge m e) ≡ bucket v m ++ leaving v (e ∷ [])
  unfolding add_edge
  bucket-add_edge v m e =
      let got = get-set e.from_version v (bucket e.from_version m ++ e ∷ []) m in
      elim (Bool-cases (str_eq e.from_version v)) [
        | inl same ↦
            rw (got, same) (ap (λ w. bucket w m ++ e ∷ []) ((eq_iff e.from_version v).0 same))
        | inr differs ↦ rw (got, differs) (sym (append-nil _))
      ]

  bucket-edges :
      (v : String) (m : Dict (List (Step S))) (es : List (Step S))
      → bucket v (edges_by_from m es) ≡ bucket v m ++ leaving v es
  unfolding edges_by_from
  bucket-edges v m [] = sym (append-nil _)
  bucket-edges v m (e ∷ es) =
      bucket-edges v (add_edge m e) es
      ∙ ap (λ xs. xs ++ leaving v es) (bucket-add_edge v m e)
      ∙ append_assoc (bucket v m) (leaving v (e ∷ [])) (leaving v es)
      ∙ ap (λ xs. bucket v m ++ xs) (sym (keep-append (λ x. str_eq x.from_version v) (e ∷ []) es))

  -- The bucket of a version has the steps that leave it, in order.
  pub bucket-leaving :
      (v : String) (es : List (Step S)) → bucket v (edges_by_from [] es) ≡ leaving v es
  unfolding get
  bucket-leaving v es = bucket-edges v [] es
