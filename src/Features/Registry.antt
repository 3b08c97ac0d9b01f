-- ===== src/Features/Registry.antt =====
-- The maps of FeatureFlagsService (src/features/flags.ts) stay well formed over every call.
use axionvera_sdk.Prelude.{
  String, Bool, true, false, Option, List, [], ◌∷◌, ◌≡◌, refl, inl, inr, or_else, Bool-cases,
}
use axionvera_sdk.Prelude.Dict.{
  Dict, set, has, Holds, Holds-set, Holds-delete, IsDistinct, set-IsDistinct, delete-IsDistinct,
}
use axionvera_sdk.Features.Flag.{Definition, PartialPolicy}
use axionvera_sdk.Features.BuiltIn.{built_in_feature_flags}
use axionvera_sdk.Features.Service.{
  Service, register_all, add_entries, new_service, register, unregister, enable, disable, reset,
  reset_all, set_policy, Call, registers, unregisters, enables, disables, resets, resets_all,
  sets_policy, after, step, run,
}

-- A definition stands under its own key.
abbrev pub IsKeyed : String → Definition → Type 0
IsKeyed k d = d.key ≡ k

pub record IsValid (s : Service) : Type 0 where
  pub keyed : Holds IsKeyed s.definitions
  pub distinct : IsDistinct s.definitions
  pub overrides_distinct : IsDistinct s.overrides

register_all-Holds :
    (m : Dict Definition) (ds : List Definition)
    → Holds IsKeyed m
    → Holds IsKeyed (register_all m ds)
unfolding register_all
register_all-Holds m [] h = h
register_all-Holds m (d ∷ ds) h =
    register_all-Holds (set d.key d m) ds (Holds-set IsKeyed d.key d m refl h)

register_all-IsDistinct :
    (m : Dict Definition) (ds : List Definition) → IsDistinct m → IsDistinct (register_all m ds)
unfolding register_all
register_all-IsDistinct m [] h = h
register_all-IsDistinct m (d ∷ ds) h =
    register_all-IsDistinct (set d.key d m) ds (set-IsDistinct d.key d m h)

add_entries-IsDistinct : (m es : Dict Bool) → IsDistinct m → IsDistinct (add_entries m es)
unfolding add_entries
add_entries-IsDistinct m [] h = h
add_entries-IsDistinct m ((k, b) ∷ es) h =
    add_entries-IsDistinct (set k b m) es (set-IsDistinct k b m h)

-- `new_service` stays shut over the ten definitions.
new_service-IsValid :
    (p : Option PartialPolicy) (o : Option (Dict Bool)) → IsValid (new_service p o)
unfolding new_service
new_service-IsValid p o = record {
  keyed = register_all-Holds [] built_in_feature_flags tt;
  distinct = register_all-IsDistinct [] built_in_feature_flags tt;
  overrides_distinct = add_entries-IsDistinct [] (add_entries [] (or_else o [])) tt;
}

register-IsValid : (s : Service) (d : Definition) → IsValid s → IsValid (after s (register s d))
unfolding register
register-IsValid s d v = elim (Bool-cases (has d.key s.definitions)) [
  | inl e ↦ rw e v
  | inr e ↦ rw e (record {
    keyed = Holds-set IsKeyed d.key d s.definitions refl v.keyed;
    distinct = set-IsDistinct d.key d s.definitions v.distinct;
    overrides_distinct = v.overrides_distinct;
  })
]

module _ (s : Service) (v : IsValid s) where
  with_overrides-IsValid : (o : Dict Bool) → IsDistinct o → IsValid (record s { overrides = o })
  with_overrides-IsValid o h = record {
    keyed = v.keyed;
    distinct = v.distinct;
    overrides_distinct = h;
  }

  enable-IsValid : (key : String) → IsValid (after s (enable s key))
  unfolding enable
  enable-IsValid key = elim (Bool-cases (has key s.definitions)) [
    | inl e ↦
        rw e (with_overrides-IsValid _ (set-IsDistinct key true s.overrides v.overrides_distinct))
    | inr e ↦ rw e v
  ]

  disable-IsValid : (key : String) → IsValid (after s (disable s key))
  unfolding disable
  disable-IsValid key = elim (Bool-cases (has key s.definitions)) [
    | inl e ↦
        rw e (with_overrides-IsValid _ (set-IsDistinct key false s.overrides v.overrides_distinct))
    | inr e ↦ rw e v
  ]

  reset-IsValid : (key : String) → IsValid (after s (reset s key))
  unfolding reset
  reset-IsValid key = elim (Bool-cases (has key s.definitions)) [
    | inl e ↦
        rw e (with_overrides-IsValid _ (delete-IsDistinct key s.overrides v.overrides_distinct))
    | inr e ↦ rw e v
  ]

pub step-IsValid : (s : Service) (c : Call) → IsValid s → IsValid (step s c)
unfolding step unregister reset_all set_policy
step-IsValid s (registers d) v = register-IsValid s d v
step-IsValid s (unregisters key) v = record {
  keyed = Holds-delete IsKeyed key s.definitions v.keyed;
  distinct = delete-IsDistinct key s.definitions v.distinct;
  overrides_distinct = delete-IsDistinct key s.overrides v.overrides_distinct;
}
step-IsValid s (enables key) v = enable-IsValid s v key
step-IsValid s (disables key) v = disable-IsValid s v key
step-IsValid s (resets key) v = reset-IsValid s v key
step-IsValid s resets_all v = record {
  keyed = v.keyed;
  distinct = v.distinct;
  overrides_distinct = tt;
}
step-IsValid s (sets_policy p) v = record {
  keyed = v.keyed;
  distinct = v.distinct;
  overrides_distinct = v.overrides_distinct;
}

run-IsValid : (s : Service) (cs : List Call) → IsValid s → IsValid (run s cs)
unfolding run
run-IsValid s [] v = v
run-IsValid s (c ∷ cs) v = run-IsValid (step s c) cs (step-IsValid s c v)

-- Whatever settings a service is made with and whatever calls follow, each flag stands under its own
-- key, and no flag and no override is held twice.
pub run-new_service-IsValid :
    (p : Option PartialPolicy) (o : Option (Dict Bool)) (cs : List Call)
    → IsValid (run (new_service p o) cs)
run-new_service-IsValid p o cs = run-IsValid _ cs (new_service-IsValid p o)
