-- ===== src/Session/Contracts.antt =====
-- src/session/contractSession.ts: ContractSession. A wallet and the instance of a contract are numbers, values of
-- metadata are texts, and `now` is the time of a call. What `session-<n>` reads as is the parameter `named`.
use Prim.Native.Char.{code}
use axionvera_sdk.Prelude.{
  ℕ, suc, String, Bool, true, false, ◌&&◌, Option, none, some, List, [], ◌∷◌, any, map, is_some,
  length, Outcome, ok, err, ◌>>=◌, if◌then◌else◌, or_else, str_eq, ◌==◌,
}
use axionvera_sdk.Prelude.Dict.{Dict, get, set, delete, has, values}
use axionvera_sdk.Batch.Validator.{space_codes}

pub data Status : Type 0 where
  active suspended closed : Status

pub record Client : Type 0 where
  pub handle : ℕ
  pub network : String

pub record Context : Type 0 where
  pub name : String
  pub contract_id : String
  pub instance_of : Option ℕ
  pub registered_at : ℕ
  pub metadata : Dict String

pub record RegisterParams : Type 0 where
  pub name : String
  pub contract_id : String
  pub instance_of : Option ℕ
  pub metadata : Option (Dict String)

-- The configuration as it is given: also one without a client.
pub record SessionConfig : Type 0 where
  pub id : Option String
  pub client : Option Client
  pub wallet : Option ℕ
  pub contracts : Option (List RegisterParams)
  pub metadata : Option (Dict String)

pub record Session : Type 0 where
  pub id : String
  pub client : Client
  pub wallet : Option ℕ
  pub created_at : ℕ
  pub metadata : Dict String
  pub status : Status
  pub updated_at : ℕ
  pub contracts : Dict Context

-- The messages of ValidationError.
pub data Error : Type 0 where
  client_required empty_name not_positive no_client : Error
  empty_contract_id no_instance not_registered already_registered : String → Error
  is_closed is_suspended session_exists no_session : String → Error
  limit_reached : Option ℕ → Error

-- `s.trim()`
unfoldable pub trim_end : String → String
trim_end String.[] = ""
trim_end (String.◌∷◌ c s) =
    let rest = trim_end s in
    if str_eq rest "" && any (λ k. k == code c) space_codes then "" else String.◌∷◌ c rest

unfoldable pub trim_start : String → String
trim_start String.[] = ""
trim_start (String.◌∷◌ c s) =
    let rest = trim_start s in if any (λ k. k == code c) space_codes then rest else String.◌∷◌ c s

abbrev pub trim : String → String
trim s = trim_end (trim_start s)

abbrev pub is_active : Session → Bool
is_active s = elim s.status [ active ↦ true | suspended ↦ false | closed ↦ false ]

abbrev pub is_closed_session : Session → Bool
is_closed_session s = elim s.status [ active ↦ false | suspended ↦ false | closed ↦ true ]

abbrev pub size : Session → ℕ
size s = length s.contracts

abbrev pub touch : ℕ → Session → Session
touch now s = record s { updated_at = now }

unfoldable pub assert_not_closed : Session → Outcome Error (Unit {0})
assert_not_closed s = if is_closed_session s then err (is_closed s.id) else ok tt

unfoldable pub assert_active : Session → Outcome Error (Unit {0})
assert_active s = elim s.status [
  | closed ↦ err (is_closed s.id)
  | suspended ↦ err (is_suspended s.id)
  | active ↦ ok tt
]

abbrev pub context_of : ℕ → RegisterParams → Context
context_of now p = record {
  name = trim p.name;
  contract_id = trim p.contract_id;
  instance_of = p.instance_of;
  registered_at = now;
  metadata = or_else p.metadata [];
}

unfoldable pub register_contract : ℕ → RegisterParams → Session → Outcome Error (Session × Context)
register_contract now p s = assert_not_closed s >>= λ u.
    if str_eq (trim p.name) ""
    then err empty_name
    else if str_eq (trim p.contract_id) ""
    then err (empty_contract_id (trim p.name))
    else if has (trim p.name) s.contracts
    then err (already_registered (trim p.name))
    else ok (
      touch now (record s { contracts = set (trim p.name) (context_of now p) s.contracts }),
      context_of now p,
    )

unfoldable pub unregister_contract : ℕ → String → Session → Outcome Error (Session × Bool)
unregister_contract now name s = assert_not_closed s >>= λ u.
    if has name s.contracts
    then ok (touch now (record s { contracts = delete name s.contracts }), true)
    else ok (s, false)

abbrev pub has_contract : String → Session → Bool
has_contract name s = has name s.contracts

unfoldable pub get_contract : String → Session → Outcome Error Context
get_contract name s = elim (get name s.contracts) [
  | none ↦ err (not_registered name)
  | some c ↦ ok c
]

abbrev pub instance_in : String → Context → Outcome Error ℕ
instance_in name c = elim c.instance_of [ none ↦ err (no_instance name) | some i ↦ ok i ]

unfoldable pub get_contract_instance : String → Session → Outcome Error ℕ
get_contract_instance name s = get_contract name s >>= instance_in name

abbrev pub list_contracts : Session → List Context
list_contracts s = values s.contracts

unfoldable pub suspend : ℕ → Session → Outcome Error Session
suspend now s = assert_not_closed s >>= λ u.
    ok (if is_active s then touch now (record s { status = suspended }) else s)

abbrev pub is_suspended_session : Session → Bool
is_suspended_session s = elim s.status [ active ↦ false | suspended ↦ true | closed ↦ false ]

unfoldable pub resume : ℕ → Session → Outcome Error Session
resume now s = assert_not_closed s >>= λ u.
    ok (if is_suspended_session s then touch now (record s { status = active }) else s)

unfoldable pub close : ℕ → Session → Session
close now s =
    if is_closed_session s then s else touch now (record s { status = closed; contracts = [] })

-- `run`, with what `fn` makes of the session.
unfoldable pub run {ℓ} : {T : Type ℓ} → (Session → T) → Session → Outcome Error T
run fn s = assert_active s >>= λ u. ok (fn s)

-- A session always has a client.
abbrev pub validate : Session → Outcome Error (Unit {0})
validate s = if is_closed_session s then err (is_closed s.id) else ok tt

pub record ContractSnapshot : Type 0 where
  pub name : String
  pub contract_id : String
  pub registered_at : ℕ
  pub metadata : Dict String

pub record SessionSnapshot : Type 0 where
  pub id : String
  pub status : Status
  pub network : String
  pub has_wallet : Bool
  pub created_at : ℕ
  pub updated_at : ℕ
  pub contracts : List ContractSnapshot
  pub metadata : Dict String

abbrev pub snapshot_of : Context → ContractSnapshot
snapshot_of c = record {
  name = c.name;
  contract_id = c.contract_id;
  registered_at = c.registered_at;
  metadata = c.metadata;
}

abbrev pub to_json : Session → SessionSnapshot
to_json s = record {
  id = s.id;
  status = s.status;
  network = s.client.network;
  has_wallet = is_some s.wallet;
  created_at = s.created_at;
  updated_at = s.updated_at;
  contracts = map snapshot_of (list_contracts s);
  metadata = s.metadata;
}

unfoldable pub register_all : ℕ → List RegisterParams → Session → Outcome Error Session
register_all now [] s = ok s
register_all now (p ∷ ps) s = register_contract now p s >>= λ r. register_all now ps r.0

module _ (named : ℕ → String) where
  -- The id, with the counter of generated ids after it.
  abbrev pub id_with : Option String → ℕ → ℕ × String
  id_with given_id counter =
      if str_eq (trim (or_else given_id "")) ""
      then (suc counter, named (suc counter))
      else (counter, trim (or_else given_id ""))

  -- The fields that the constructor sets before the contracts.
  abbrev pub initial : ℕ → String → Client → SessionConfig → Session
  initial now id client c = record {
    id = id;
    client = client;
    wallet = c.wallet;
    created_at = now;
    metadata = or_else c.metadata [];
    status = active;
    updated_at = now;
    contracts = [];
  }

  unfoldable pub session_with : Option Client → ℕ → SessionConfig → ℕ → ℕ × Outcome Error Session
  session_with none now c counter = (counter, err client_required)
  session_with (some client) now c counter = (
    (id_with c.id counter).0,
    register_all now (or_else c.contracts []) (initial now (id_with c.id counter).1 client c),
  )

  abbrev pub new_session : ℕ → SessionConfig → ℕ → ℕ × Outcome Error Session
  new_session now c counter = session_with c.client now c counter
