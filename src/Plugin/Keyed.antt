-- ===== src/Plugin/Keyed.antt =====
-- The map of plugins of a PluginManager (src/plugin/pluginManager.ts) stays well formed over every call.
use Prim.Native.Nat.{Ordering}
use mathlib.Core.Option.{none-ne-some}
use axionvera_sdk.Prelude.{
  ℕ, ◌≡◌, refl, sym, ap, ◌∙◌, subst, inl, inr, String, some, List, [], ◌∷◌, In, Bool-cases,
  Option-cases, Outcome-cases, str_eq, eq_iff,
}
use axionvera_sdk.Prelude.Dict.{
  Dict, get, values, Holds, Holds-set, Holds-delete, Holds-get, IsDistinct, set-IsDistinct,
  delete-IsDistinct,
}
use axionvera_sdk.Plugin.Types.{State, Instance, ManagerConfig}
use axionvera_sdk.Plugin.Lifecycle.{transition_state}
use axionvera_sdk.Plugin.Runs.{
  Manager, new_manager, id_of, found, current, put, update, with_state, with_error, move,
}
use axionvera_sdk.Plugin.Calls.{Call, run}
use axionvera_sdk.Plugin.Keeps.{IsStable}
use axionvera_sdk.Plugin.Moves.{found_some}
use axionvera_sdk.Plugin.Histories.{run-Kept}

-- A plugin stands under its own id, and no id stands twice.
abbrev pub IsNamed : String → Instance → Type 0
IsNamed id p = id_of p ≡ id

pub record IsKeyed (m : Manager) : Type 0 where
  pub named : Holds IsNamed m.plugins
  pub distinct : IsDistinct m.plugins

abbrev StaysKeyed : Manager → Manager → Type 0
StaysKeyed m t = IsKeyed m → IsKeyed t

set-IsKeyed :
    (q : Instance) (id : String) (m : Manager) → id_of q ≡ id → IsKeyed m → IsKeyed (put id q m)
unfolding put
set-IsKeyed q id m e h = record {
  named = Holds-set IsNamed id q m.plugins e h.named;
  distinct = set-IsDistinct id q m.plugins h.distinct;
}

update-StaysKeyed :
    (p : Instance) (change : Instance → Instance) (m : Manager)
    → ((q : Instance) → id_of (change q) ≡ id_of q)
    → StaysKeyed m (update p change m)
unfolding update
update-StaysKeyed p change m same h = elim (Option-cases (found p (get (id_of p) m.plugins))) [
  | inl missing ↦ rw (missing, update) h
  | inr (q, there) ↦
      rw (there, update)
        (set-IsKeyed (change q) (id_of p) m
          (same q ∙ Holds-get IsNamed (id_of p) q m.plugins h.named (found_some p _ q there).0) h)
]

move-StaysKeyed : (p : Instance) (target : State) (m : Manager) → StaysKeyed m (move p target m).0
unfolding move
move-StaysKeyed p target m h =
    elim (Outcome-cases (transition_state (id_of p) (current p m).state target)) [
      | inl (e, illegal) ↦ rw (illegal, move) h
      | inr (s, moved) ↦ rw (moved, move) (update-StaysKeyed p (with_state s) m (λ q. refl) h)
    ]

StaysKeyed-IsStable : IsStable StaysKeyed
StaysKeyed-IsStable = record {
  same = λ m t e f h. record {
    named = subst (Holds IsNamed) (sym f) h.named;
    distinct = subst IsDistinct (sym f) h.distinct;
  };
  trans = λ a b c f g h. g (f h);
  moved = λ p target m other h. move-StaysKeyed p target m h;
  broken = λ p e m h. update-StaysKeyed p (with_error e) m (λ q. refl) h;
  added = λ p m new free h.
      (let k = set-IsKeyed p (id_of p) m refl h in
        record { named = k.named; distinct = k.distinct });
  removed = λ id m h. record {
    named = Holds-delete IsNamed id m.plugins h.named;
    distinct = delete-IsDistinct id m.plugins h.distinct;
  };
}

-- Whatever calls are made to a new manager, each plugin stands under its own id in its map, and no id twice.
pub run-IsKeyed :
    (collate : List ℕ → List ℕ → Ordering) (f : ℕ) (c : ManagerConfig) (cs : List Call)
    → IsKeyed (run collate f cs (new_manager c))
unfolding new_manager
run-IsKeyed collate f c cs =
    run-Kept StaysKeyed StaysKeyed-IsStable collate f cs (new_manager c)
      (record { named = tt; distinct = tt })

-- In such a map, a plugin is found by its id.
pub get-In :
    (m : Dict Instance) (q : Instance)
    → Holds IsNamed m
    → IsDistinct m
    → In q (values m)
    → get (id_of q) m ≡ some q
unfolding get
get-In [] q n d h = absurd h
get-In ((k, p) ∷ m) q (named, n) (new, d) (inl here) =
    let same : k ≡ id_of q = sym named ∙ ap id_of (sym here) in
    rw ((eq_iff k (id_of q)).1 same) (ap some (sym here))
get-In ((k, p) ∷ m) q (named, n) (new, d) (inr there) = elim (Bool-cases (str_eq k (id_of q))) [
  | inl e ↦
      let twice = ap (λ i. get i m) ((eq_iff k (id_of q)).0 e) ∙ get-In m q n d there in
      absurd (none-ne-some q (sym new ∙ twice))
  | inr e ↦ rw e (get-In m q n d there)
]
