-- ===== src/Plugin/Histories.antt =====
-- What lists of calls of a PluginManager (src/plugin/pluginManager.ts) do to the states of its plugins.
use Prim.Native.Nat.{Ordering}
use mathlib.Core.Option.{some-injective}
use axionvera_sdk.Prelude.{
  ℕ, ◌≤◌, ◌<◌, ◌≡◌, refl, sym, ◌∙◌, subst, ◌≢◌, ◌⊎◌, inl, inr, String, true, any, ◌==◌, Bool-cases,
  some, List, [], ◌∷◌, arith, map,
}
use axionvera_sdk.Prelude.Dict.{get, values}
use axionvera_sdk.Plugin.Types.{
  State-discrete, State, registered, uninstalled, error, Instance, ManagerConfig,
}
use axionvera_sdk.Plugin.Lifecycle.{is_valid_transition, valid_transitions}
use axionvera_sdk.Plugin.Runs.{Manager, id_of, new_manager}
use axionvera_sdk.Plugin.Manager.{get_dependency_sorted, install_all, run_pending, enable_all}
use axionvera_sdk.Plugin.Clients.{get_active, process_client_options, add_client, apply_to_client}
use axionvera_sdk.Plugin.Calls.{
  Call, registers, unregisters, installs, uninstalls, enables, disables, installs_all, enables_all,
  processes_options, applies_to_client, runs_pending, step, run,
}
use axionvera_sdk.Plugin.Keeps.{IsStable}
use axionvera_sdk.Plugin.Moves.{IsClosed, Kept, Kept-IsStable}
use axionvera_sdk.Plugin.Steps.{
  enable-Keeps, disable-Keeps, uninstall-Keeps, unregister-Keeps, register-Keeps,
}
use axionvera_sdk.Plugin.Installs.{
  install-Keeps, install_ids-Keeps, run_first-Keeps, enable_ids-Keeps, apply_each-Keeps,
  process_with-Kept,
}

module _ (K : Manager → Manager → Type 0) (stable : IsStable K)
    (collate : List ℕ → List ℕ → Ordering) (f : ℕ) where
  add_client-Kept : (client : ℕ) (m : Manager) → K m (add_client client m)
  add_client-Kept client m = elim (Bool-cases (any (λ c. c == client) m.clients)) [
    | inl there ↦ rw there (stable.same m m refl refl)
    | inr new ↦ rw new (stable.same m _ refl refl)
  ]

  step-Kept : (c : Call) (m : Manager) → K m (step collate f c m)
  unfolding step install_all enable_all run_pending process_client_options apply_to_client
  step-Kept (registers c) m = (register-Keeps K stable collate c).keeps m
  step-Kept (unregisters id) m = (unregister-Keeps K stable id).keeps m
  step-Kept (installs id) m = (install-Keeps K stable collate f id).keeps m
  step-Kept (uninstalls id) m = (uninstall-Keeps K stable id).keeps m
  step-Kept (enables id) m = (enable-Keeps K stable id).keeps m
  step-Kept (disables id) m = (disable-Keeps K stable id).keeps m
  step-Kept installs_all m =
      (install_ids-Keeps K stable collate f (get_dependency_sorted collate m)).keeps m
  step-Kept enables_all m = (enable_ids-Keeps K stable (map id_of (values m.plugins))).keeps m
  step-Kept (processes_options o) m = process_with-Kept K stable (get_active m) o m
  step-Kept (applies_to_client c) m =
      let t = add_client c m in
      stable.trans m t _ (add_client-Kept c m)
        ((apply_each-Keeps K stable (get_active m) c).keeps t)
  step-Kept runs_pending m = (run_first-Keeps K stable collate f m.pending).keeps m

  pub run-Kept : (cs : List Call) (m : Manager) → K m (run collate f cs m)
  unfolding run
  run-Kept [] m = stable.same m m refl refl
  run-Kept (c ∷ cs) m =
      let t = step collate f c m in
      stable.trans m t (run collate f cs t) (step-Kept c m) (run-Kept cs t)

-- What a plugin may go through once it is registered: moves of the table of lifecycle.ts other than back to
-- Registered, and failures.
pub data Moves (s : State) : State → Type 0 where
  stays_put : Moves s s
  moves : {t u : State} → Moves s t → is_valid_transition t u ≡ true → u ≢ registered → Moves s u
  breaks : {t : State} → Moves s t → Moves s error

Moves-append : {s t u : State} → Moves s t → Moves t u → Moves s u
Moves-append h stays_put = h
Moves-append h (moves k legal other) = moves (Moves-append h k) legal other
Moves-append h (breaks k) = breaks (Moves-append h k)

Moves-IsClosed : IsClosed Moves
Moves-IsClosed = record {
  stays = λ s. stays_put;
  follows = λ s t u h k. Moves-append h k;
  legal = λ s t e other. moves stays_put e other;
  fails = λ s. breaks stays_put;
}

-- A plugin that has failed or was uninstalled.
abbrev pub IsDown : State → Type 0
IsDown s = (s ≡ error) ⊎ (s ≡ uninstalled)

-- Whatever calls are made, a plugin of the manager either has its state from the one it had before them, by
-- legal moves none of which leads back to Registered and by failures, or was registered by one of them.
pub run-Moves :
    (collate : List ℕ → List ℕ → Ordering) (f : ℕ) (cs : List Call) (m : Manager) (id : String)
    (q : Instance)
    → get id (run collate f cs m).plugins ≡ some q
    → ((p : Instance) × (get id m.plugins ≡ some p) × (p.serial ≡ q.serial) × Moves p.state q.state)
      ⊎ ((m.next ≤ q.serial) × (q.serial < (run collate f cs m).next))
run-Moves collate f cs m id q h =
    (run-Kept (Kept Moves) (Kept-IsStable Moves Moves-IsClosed) collate f cs m).origin id q h

-- Only Uninstalled, and Registered, can follow Error by the table, and nothing follows Uninstalled.
IsDown-next : (s t : State) → IsDown s → is_valid_transition s t ≡ true → t ≢ registered → IsDown t
unfolding is_valid_transition valid_transitions State-discrete
IsDown-next s t h legal other = elim h [
  | inl broken ↦ ground (arith, legal, other)
  | inr gone ↦ ground (arith, legal)
]

Moves-IsDown : {s t : State} → Moves s t → IsDown s → IsDown t
Moves-IsDown stays_put h = h
Moves-IsDown (moves {t} {u} k legal other) h = IsDown-next t u (Moves-IsDown k h) legal other
Moves-IsDown (breaks k) h = inl refl

-- A plugin that has failed, or was uninstalled, is never ready again: whatever calls follow, it is in Error or
-- Uninstalled as long as the manager has it.
pub run-IsDown :
    (collate : List ℕ → List ℕ → Ordering) (f : ℕ) (c : ManagerConfig) (before later : List Call)
    (id : String) (p q : Instance)
    → get id (run collate f before (new_manager c)).plugins ≡ some p
    → get id (run collate f later (run collate f before (new_manager c))).plugins ≡ some q
    → p.serial ≡ q.serial
    → IsDown p.state
    → IsDown q.state
unfolding new_manager get
run-IsDown collate f c before later id p q h k same down =
    elim ((run-Kept (Kept Moves) (Kept-IsStable Moves Moves-IsClosed) collate f before
        (new_manager c)).origin
      id p h) [
        | inl (o, none_there, same_before, moved) ↦ ground arith
        | inr (fresh, bound) ↦
            elim (run-Moves collate f later (run collate f before (new_manager c)) id q k) [
              | inl (r, there, same_serial, moved) ↦
                  Moves-IsDown moved
                    (subst (λ x. IsDown x.state) (some-injective p r (sym h ∙ there)) down)
              | inr (late, bound_later) ↦ absurd (omega (arith, same))
            ]
      ]
