-- ===== src/Migration/Scan.antt =====
-- One entry of the queue of MigrationRegistry.resolvePath (src/migrations/migrationRegistry.ts).
use axionvera_sdk.Prelude.{
  subst, ◌≡◌, refl, sym, ap, ◌∙◌, ◌⊎◌, inl, inr, ◌↔◌, String, true, false, List, [], ◌∷◌, ◌++◌, map,
  str_eq, eq_iff, Bool-cases, All, In, In-append_left, In-append_right,
}
use axionvera_sdk.Migration.Types.{Step}
use axionvera_sdk.Migration.Registry.{Entry, found, scanned, is_visited, scan}

pub is_visited-In : (vs : List String) (v : String) → (is_visited vs v ≡ true) ↔ In v vs
is_visited-In [] v = ((λ e. cc), (λ h. absurd h))
is_visited-In (w ∷ vs) v =
    let (to, from) = is_visited-In vs v in
    elim (Bool-cases (str_eq w v)) [
      | inl e ↦ rw e ((λ _. inl (sym ((eq_iff w v).0 e))), (λ _. refl))
      | inr e ↦ rw e (
        (λ h. inr (to h)),
        (λ h. elim h [
          | inl same ↦ absurd (cc (e, (eq_iff w v).1 (sym same)))
          | inr there ↦ from there
        ]),
      )
    ]

In-split : (v : String) (xs ys : List String) → In v (xs ++ ys) → In v xs ⊎ In v ys
In-split v [] ys h = inr h
In-split v (x ∷ xs) ys (inl e) = inl (inl e)
In-split v (x ∷ xs) ys (inr h) = elim (In-split v xs ys h) [ inl a ↦ inl (inr a) | inr b ↦ inr b ]

module _ {S : Type 0} where
  abbrev pub versions : List (Entry S) → List String
  versions = map λ e. e.0

  versions-append :
      (q : List (Entry S)) (v : String) (p : List (Step S))
      → versions (q ++ (v, p) ∷ []) ≡ versions q ++ v ∷ []
  versions-append [] v p = refl
  versions-append (e ∷ q) v p = ap (λ vs. e.0 ∷ vs) (versions-append q v p)

  -- A chain of steps from one version to another.
  abbrev pub IsChain : String → List (Step S) → String → Type 0
  IsChain v [] w = v ≡ w
  IsChain v (e ∷ es) w = (e.from_version ≡ v) × IsChain e.to_version es w

  pub IsChain-append :
      (v w : String) (es : List (Step S)) (e : Step S)
      → IsChain v es w
      → e.from_version ≡ w
      → IsChain v (es ++ e ∷ []) e.to_version
  IsChain-append v w [] e h same = (same ∙ sym h, refl)
  IsChain-append v w (d ∷ es) e (p, h) same = (p, IsChain-append d.to_version w es e h same)

  pub scan-goal :
      (to : String) (path : List (Step S)) (d : Step S) (es : List (Step S)) (vs : List String)
      (q : List (Entry S))
      → str_eq d.to_version to ≡ true
      → scan to path (d ∷ es) vs q ≡ found (path ++ d ∷ [])
  unfolding scan
  scan-goal to path d es vs q goal = rw (goal, scan) refl

  pub scan-old :
      (to : String) (path : List (Step S)) (d : Step S) (es : List (Step S)) (vs : List String)
      (q : List (Entry S))
      → str_eq d.to_version to ≡ false
      → is_visited vs d.to_version ≡ true
      → scan to path (d ∷ es) vs q ≡ scan to path es vs q
  unfolding scan
  scan-old to path d es vs q on old = rw (on, old, scan) refl

  pub scan-new :
      (to : String) (path : List (Step S)) (d : Step S) (es : List (Step S)) (vs : List String)
      (q : List (Entry S))
      → str_eq d.to_version to ≡ false
      → is_visited vs d.to_version ≡ false
      → scan to path (d ∷ es) vs q
        ≡ scan to path es (vs ++ d.to_version ∷ []) (q ++ (d.to_version, path ++ d ∷ []) ∷ [])
  unfolding scan
  scan-new to path d es vs q on new = rw (on, new, scan) refl

  -- Nothing is forgotten, all that is new is queued, and each edge leads to a version that is visited and
  -- is not the goal.
  pub record Scanned (to : String) (es : List (Step S)) (vs : List String) (q : List (Entry S))
      (vs' : List String) (q' : List (Entry S)) : Type 0 where
    pub keeps : (v : String) → In v vs → In v vs'
    pub queues : (v : String) → In v (versions q) → In v (versions q')
    pub queued : (v : String) → In v vs' → In v vs ⊎ In v (versions q')
    pub covered : All (λ e. In e.to_version vs' × (str_eq e.to_version to ≡ false)) es

  pub found-not :
      {p : List (Step S)} {vs : List String} {q : List (Entry S)} → found p ≡ scanned vs q → ⊥
  found-not e = cc e

  pub same-queue :
      (to : String) (path : List (Step S)) (vs : List String) (q : List (Entry S))
      (vs' : List String) (q' : List (Entry S))
      → scan to path [] vs q ≡ scanned vs' q'
      → q ≡ q'
  unfolding scan
  same-queue to path vs q vs' q' h = cc h

  pub same-visited :
      (to : String) (path : List (Step S)) (vs : List String) (q : List (Entry S))
      (vs' : List String) (q' : List (Entry S))
      → scan to path [] vs q ≡ scanned vs' q'
      → vs ≡ vs'
  unfolding scan
  same-visited to path vs q vs' q' h = cc h

  scanned-none :
      (to : String) (path : List (Step S)) (vs : List String) (q : List (Entry S))
      (vs' : List String) (q' : List (Entry S))
      → scan to path [] vs q ≡ scanned vs' q'
      → Scanned to [] vs q vs' q'
  scanned-none to path vs q vs' q' h =
      let same = same-visited to path vs q vs' q' h in
      record {
        keeps = λ v i. subst (In v) same i;
        queues = λ v i. subst (λ x. In v (versions x)) (same-queue to path vs q vs' q' h) i;
        queued = λ v i. inl (subst (In v) (sym same) i);
        covered = tt;
      }

  pub scan-Scanned :
      (to : String) (path es : List (Step S)) (vs : List String) (q : List (Entry S))
      (vs' : List String) (q' : List (Entry S))
      → scan to path es vs q ≡ scanned vs' q'
      → Scanned to es vs q vs' q'
  scan-Scanned to path [] vs q vs' q' e = scanned-none to path vs q vs' q' e
  scan-Scanned to path (d ∷ es) vs q vs' q' e = elim (Bool-cases (str_eq d.to_version to)) [
    | inl goal ↦ absurd (found-not (sym (scan-goal to path d es vs q goal) ∙ e))
    | inr on ↦ elim (Bool-cases (is_visited vs d.to_version)) [
      | inl old ↦
          let rest =
            scan-Scanned to path es vs q vs' q' (sym (scan-old to path d es vs q on old) ∙ e) in
          record {
            keeps = rest.keeps;
            queues = rest.queues;
            queued = rest.queued;
            covered = (
              (rest.keeps d.to_version ((is_visited-In vs d.to_version).0 old), on),
              rest.covered,
            );
          }
      | inr new ↦
          let w = d.to_version in
          let pushed = q ++ (w, path ++ d ∷ []) ∷ [] in
          let rest =
            scan-Scanned to path es (vs ++ w ∷ []) pushed vs' q'
              (sym (scan-new to path d es vs q on new) ∙ e) in
          let in_pushed : (v : String) → In v (versions q ++ w ∷ []) → In v (versions q') =
            λ v h. rest.queues v (subst (In v) (sym (versions-append q w (path ++ d ∷ []))) h) in
          record {
            keeps = λ v h. rest.keeps v (In-append_left v vs (w ∷ []) h);
            queues = λ v h. in_pushed v (In-append_left v (versions q) (w ∷ []) h);
            queued = λ v h. elim (rest.queued v h) [
              | inl there ↦ elim (In-split v vs (w ∷ []) there) [
                | inl a ↦ inl a
                | inr b ↦ inr (in_pushed v (In-append_right v (versions q) (w ∷ []) b))
              ]
              | inr there ↦ inr there
            ];
            covered = ((rest.keeps w (In-append_right w vs (w ∷ []) (inl refl)), on), rest.covered);
          }
    ]
  ]
