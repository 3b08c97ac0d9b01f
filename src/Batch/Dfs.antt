-- ===== src/Batch/Dfs.antt =====
-- The search for cycles (src/batch/batchValidator.ts) on dependencies that all point backwards.
use axionvera_sdk.Prelude.{
  ℕ, zero, suc, ◌+◌, ◌≤◌, ◌<◌, ◌≡◌, refl, ◌∙◌, ◌≢◌, false, some, List, [], ◌∷◌, All, arith, inl,
  inr, ◌⊎◌, Bool-cases, sym, ltb, ltb→lt,
}
use axionvera_sdk.Batch.Cycles.{
  Color, white, gray, black, Search, enter, leave, Visit, visit, close, dfs, search_roots,
}

pub Color-cases : (c : Color) → (c ≡ white) ⊎ ((c ≡ gray) ⊎ (c ≡ black))
Color-cases white = inl refl
Color-cases gray = inr (inl refl)
Color-cases black = inr (inr refl)

-- No node below `u` is on the current path.
abbrev pub Clear : ℕ → Search → Type 0
Clear u s = (w : ℕ) → w < u → s.color w ≢ gray

-- A search that found nothing, and touched only nodes below `u`.
record Quiet (u : ℕ) (s : Search) (r : Visit) : Type 0 where
  after : Search
  done : r ≡ some (false, after)
  clear : Clear u after
  above : (w : ℕ) → u ≤ w → after.color w ≡ s.color w
  none_found : after.in_cycle ≡ s.in_cycle

Clear-after :
    (u v : ℕ) (s t : Search)
    → Clear u s
    → Clear (suc v) t
    → ((w : ℕ) → suc v ≤ w → t.color w ≡ s.color w)
    → Clear u t
Clear-after u v s t c d same w h = elim (Bool-cases (ltb v w)) [
  | inl over ↦ λ e. c w h (sym (same w (ltb→lt v w over)) ∙ e)
  | inr under ↦ d w (ground arith)
]

visit-Quiet :
    (go : ℕ → Search → Visit) (u : ℕ) (vs : List ℕ)
    → ((v : ℕ) (s : Search) → v < u → Clear v s → Quiet (suc v) s (go v s))
    → (s : Search) → All (λ v. v < u) vs
    → Clear u s
    → Quiet u s (visit go vs s)
unfolding visit
visit-Quiet go u [] ih s b c = record {
  after = s;
  done = refl;
  clear = c;
  above = λ w h. refl;
  none_found = refl;
}
visit-Quiet go u (v ∷ vs) ih s (below, b) c = elim (Color-cases (s.color v)) [
  | inl is_white ↦
      let q = ih v s below (λ w h. c w (omega arith)) in
      let rest = visit-Quiet go u vs ih q.after b (Clear-after u v s q.after c q.clear q.above) in
      record {
        after = rest.after;
        done = rw (is_white, visit) (rw (q.done, visit) rest.done);
        clear = rest.clear;
        above = λ w h. rest.above w h ∙ q.above w (omega arith);
        none_found = rest.none_found ∙ q.none_found;
      }
  | inr (inl is_gray) ↦ absurd (c v below is_gray)
  | inr (inr is_black) ↦
      let rest = visit-Quiet go u vs ih s b c in
      record {
        after = rest.after;
        done = rw (is_black, visit) rest.done;
        clear = rest.clear;
        above = rest.above;
        none_found = rest.none_found;
      }
]

module _ (adj : ℕ → List ℕ) (back : (u : ℕ) → All (λ v. v < u) (adj u)) where
  dfs-Quiet : (f u : ℕ) (s : Search) → u < f → Clear u s → Quiet (suc u) s (dfs adj f u s)
  unfolding dfs close
  dfs-Quiet zero u s h c = absurd (omega arith)
  dfs-Quiet (suc f) u s h c =
      let q =
        visit-Quiet (dfs adj f) u (adj u) (λ v t below cv. dfs-Quiet f v t (omega arith) cv)
          (enter s u) (back u) (λ w k. ground (arith, c w k)) in
      record {
        after = leave q.after u;
        done = rw (q.done, close);
        clear = λ w k. ground (arith, q.clear w);
        above = λ w k. ground (arith, q.above w);
        none_found = q.none_found;
      }

  pub search_roots-in_cycle :
      (f k i : ℕ) (s : Search)
      → k + i < f
      → Clear i s
      → ((w : ℕ) → i ≤ w → s.color w ≡ white)
      → (t : Search) × (search_roots adj f k i s ≡ some t) × (t.in_cycle ≡ s.in_cycle)
  unfolding search_roots
  search_roots-in_cycle f zero i s h c fresh = (s, refl, refl)
  search_roots-in_cycle f (suc k) i s h c fresh =
      let q = dfs-Quiet f i (record s { path = [] }) (omega arith) c in
      let (t, e, same) =
        search_roots-in_cycle f k (i + 1) q.after (omega arith) (λ w l. q.clear w (omega arith))
          (λ w l. q.above w (omega arith) ∙ fresh w (omega arith)) in
      let is_white = fresh i (omega arith) in
      (t, rw (is_white, search_roots) (rw (q.done, search_roots) e), same ∙ q.none_found)
