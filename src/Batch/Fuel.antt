-- ===== src/Batch/Fuel.antt =====
-- The search for cycles (src/batch/batchValidator.ts) ends on every batch: the fuel is enough.
use axionvera_sdk.Prelude.{
  ℕ, zero, suc, ◌+◌, ◌≤◌, ◌<◌, ◌≡◌, refl, ◌≢◌, Bool, true, false, some, List, [], ◌∷◌, All, arith,
  ◌==◌, inl, inr, Bool-cases, ℤ, pos, negsuc, or_else, length,
}
use axionvera_sdk.Batch.Types.{Dependency, Transaction}
use axionvera_sdk.Batch.Dfs.{Color-cases}
use axionvera_sdk.Batch.Cycles.{
  Color, white, gray, black, Search, start, paint, enter, leave, Visit, visit, close, dfs,
  search_roots, mark_path, push_in_range, in_range, adjacency, detect_cycles,
}

abbrev weight : Color → ℕ
weight white = 1
weight gray = 0
weight black = 0

-- The unvisited nodes below `n`.
abbrev whites : ℕ → (ℕ → Color) → ℕ
whites zero c = 0
whites (suc n) c = weight (c n) + whites n c

-- Painting adds no unvisited node.
abbrev Fewer : (ℕ → Color) → (ℕ → Color) → Type 0
Fewer c d = (w : ℕ) → c w ≡ white → d w ≡ white

whites-Fewer : (n : ℕ) (c d : ℕ → Color) → Fewer c d → whites n c ≤ whites n d
whites-Fewer zero c d h = omega arith
whites-Fewer (suc n) c d h = ground (arith, h n, whites-Fewer n c d h)

whites-le : (n : ℕ) (c : ℕ → Color) → whites n c ≤ n
whites-le zero c = omega arith
whites-le (suc n) c = ground (arith, whites-le n c)

whites-paint : (n u : ℕ) (c : ℕ → Color) → n ≤ u → whites n (paint c u gray) ≡ whites n c
whites-paint zero u c h = refl
whites-paint (suc n) u c h = ground (arith, whites-paint n u c)

whites-enter :
    (n u : ℕ) (c : ℕ → Color) → u < n → c u ≡ white → suc (whites n (paint c u gray)) ≡ whites n c
whites-enter zero u c h e = absurd (omega arith)
whites-enter (suc n) u c h e = elim (Bool-cases (u == n)) [
  | inl last ↦ ground (arith, whites-paint n u c)
  | inr before ↦ ground (arith, whites-enter n u c)
]

record Ends (s : Search) (r : Visit) : Type 0 where
  found : Bool
  after : Search
  done : r ≡ some (found, after)
  fewer : Fewer after.color s.color

visit-Ends :
    (go : ℕ → Search → Visit) (n f : ℕ) (vs : List ℕ)
    → ((v : ℕ) (s : Search) → v < n → s.color v ≡ white → whites n s.color ≤ f → Ends s (go v s))
    → (s : Search) → All (λ v. v < n) vs
    → whites n s.color ≤ f
    → Ends s (visit go vs s)
unfolding visit mark_path
visit-Ends go n f [] ih s b h = record { found = false; after = s; done = refl; fewer = λ w e. e }
visit-Ends go n f (v ∷ vs) ih s (below, b) h = elim (Color-cases (s.color v)) [
  | inl is_white ↦
      let q = ih v s below is_white h in
      elim (Bool-cases q.found) [
        | inl hit ↦ record {
          found = true;
          after = q.after;
          done = rw (is_white, visit) (rw (q.done, visit) (rw hit));
          fewer = q.fewer;
        }
        | inr miss ↦
            let fewer_left = whites-Fewer n q.after.color s.color q.fewer in
            let rest = visit-Ends go n f vs ih q.after b (omega arith) in
            record {
              found = rest.found;
              after = rest.after;
              done = rw (is_white, visit) (rw (q.done, visit) (rw miss rest.done));
              fewer = λ w e. q.fewer w (rest.fewer w e);
            }
      ]
  | inr (inl is_gray) ↦ record {
    found = true;
    after = mark_path s;
    done = rw (is_gray, visit);
    fewer = λ w e. e;
  }
  | inr (inr is_black) ↦
      let rest = visit-Ends go n f vs ih s b h in
      record {
        found = rest.found;
        after = rest.after;
        done = rw (is_black, visit) rest.done;
        fewer = rest.fewer;
      }
]

Fewer-paint : (c : ℕ → Color) (u : ℕ) (k : Color) → k ≢ white → Fewer (paint c u k) c
Fewer-paint c u k h w e = ground arith

module _ (adj : ℕ → List ℕ) (n : ℕ) (inside : (u : ℕ) → All (λ v. v < n) (adj u)) where
  dfs-Ends :
      (f u : ℕ) (s : Search)
      → u < n
      → s.color u ≡ white
      → whites n s.color ≤ f
      → Ends s (dfs adj f u s)
  unfolding dfs close
  dfs-Ends zero u s h e le = absurd (omega (arith, whites-enter n u s.color h e))
  dfs-Ends (suc f) u s h e le =
      let q =
        visit-Ends (dfs adj f) n f (adj u) (λ v t below is_white k. dfs-Ends f v t below is_white k)
          (enter s u) (inside u) (omega (arith, whites-enter n u s.color h e)) in
      elim (Bool-cases q.found) [
        | inl hit ↦ record {
          found = true;
          after = q.after;
          done = rw (q.done, close) (rw (hit, close));
          fewer = λ w k. Fewer-paint s.color u gray (λ x. cc) w (q.fewer w k);
        }
        | inr miss ↦ record {
          found = false;
          after = leave q.after u;
          done = rw (q.done, close) (rw (miss, close));
          fewer = λ w k.
              Fewer-paint s.color u gray (λ x. cc) w
                (q.fewer w (Fewer-paint q.after.color u black (λ x. cc) w k));
        }
      ]

  search_roots-ends :
      (f k i : ℕ) (s : Search)
      → k + i ≤ n
      → n ≤ f
      → (t : Search) × (search_roots adj f k i s ≡ some t)
  unfolding search_roots
  search_roots-ends f zero i s h le = (s, refl)
  search_roots-ends f (suc k) i s h le = elim (Color-cases (s.color i)) [
    | inl is_white ↦
        let q =
          dfs-Ends f i (record s { path = [] }) (omega arith) is_white
            (omega (arith, whites-le n s.color)) in
        let (t, e) = search_roots-ends f k (i + 1) q.after (omega arith) le in
        (t, rw (is_white, search_roots) (rw (q.done, search_roots) e))
    | inr (inl is_gray) ↦
        let (t, e) = search_roots-ends f k (i + 1) s (omega arith) le in
        (t, rw (is_gray, search_roots) e)
    | inr (inr is_black) ↦
        let (t, e) = search_roots-ends f k (i + 1) s (omega arith) le in
        (t, rw (is_black, search_roots) e)
  ]

push_in_range-inside :
    (n : ℕ) (z : ℤ) (row : List ℕ) → All (λ v. v < n) row → All (λ v. v < n) (push_in_range n z row)
unfolding push_in_range
push_in_range-inside n (pos k) row h = ground arith
push_in_range-inside n (negsuc k) row h = h

in_range-inside : (n : ℕ) (ds : List Dependency) → All (λ v. v < n) (in_range n ds)
unfolding in_range
in_range-inside n [] = tt
in_range-inside n (d ∷ ds) =
    push_in_range-inside n d.depends_on_index (in_range n ds) (in_range-inside n ds)

adjacency-inside :
    {Op : Type 0} (n : ℕ) (ts : List (Transaction Op)) (u : ℕ) → All (λ v. v < n) (adjacency n ts u)
unfolding adjacency
adjacency-inside n [] u = tt
adjacency-inside n (t ∷ ts) zero = in_range-inside n (or_else t.dependencies [])
adjacency-inside n (t ∷ ts) (suc u) = adjacency-inside n ts u

-- On every batch, whatever its dependencies, the search for cycles returns: it visits each transaction
-- at most once.
pub detect_cycles-returns :
    {Op : Type 0} (ts : List (Transaction Op)) → (us : List ℕ) × (detect_cycles ts ≡ some us)
unfolding detect_cycles
detect_cycles-returns ts =
    let n = length ts in
    let (t, e) =
      search_roots-ends (adjacency n ts) n (adjacency-inside n ts) (suc n) n 0 start (omega arith)
        (omega arith) in
    (t.in_cycle, rw (e, detect_cycles))
