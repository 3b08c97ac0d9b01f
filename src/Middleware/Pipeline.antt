-- ===== src/Middleware/Pipeline.antt =====
-- src/middleware/pipeline.ts: MiddlewarePipeline. A hook may change the context it is given, and return another; it
-- does not change the pipeline. The order of a middleware is a natural number.
use axionvera_sdk.Prelude.{
  ℕ, suc, String, Bool, ◌&&◌, ◌||◌, Option, none, some, List, [], ◌∷◌, ◌++◌, Outcome, ok, err,
  if◌then◌else◌, or_else, str_eq, ◌==◌, ltb, leb, any, map, ◌>>=◌,
}
use axionvera_sdk.Prelude.Dict.{Dict}

pub data Workflow : Type 0 where
  request transaction : Workflow

-- `P` are payloads, `R` results, and `E` what may be thrown.
pub record Context (P R E : Type 0) : Type 0 where
  pub workflow : Workflow
  pub operation : String
  pub payload : P
  pub metadata : Dict String
  pub result : Option R
  pub error : Option E

-- What a hook leaves of the context that it was given, and what it returns or throws.
pub record HookReturn (P R E : Type 0) : Type 0 where
  pub given : Context P R E
  pub answer : Outcome E (Option (Context P R E))

pub record Middleware (P R E : Type 0) : Type 0 where
  pub name : String
  pub order : Option ℕ
  pub pre : Option (Context P R E → HookReturn P R E)
  pub post : Option (Context P R E → HookReturn P R E)
  pub on_error : Option (Context P R E → HookReturn P R E)

-- A registered middleware, with its number in the order of registration.
pub record Registered (P R E : Type 0) : Type 0 where
  pub middleware : Middleware P R E
  pub rank : ℕ
  pub sequence : ℕ

pub record Pipeline (P R E : Type 0) : Type 0 where
  pub middleware : List (Registered P R E)
  pub next_sequence : ℕ

-- A context, or the one that was left and what was thrown.
abbrev pub Step : Type 0 → Type 0 → Type 0 → Type 0
Step P R E = Outcome (Context P R E × E) (Context P R E)

-- What `next` does, which may change the context too.
pub record NextReturn (P R E : Type 0) : Type 0 where
  pub given : Context P R E
  pub answer : Outcome E R

module _ {P R E : Type 0} where
  abbrev pub empty : Pipeline P R E
  empty = record { middleware = []; next_sequence = 0 }

  -- Not after the other one, by `sortMiddleware`.
  abbrev pub is_before : Registered P R E → Registered P R E → Bool
  is_before a b = ltb a.rank b.rank || (a.rank == b.rank && leb a.sequence b.sequence)

  unfoldable pub insert : Registered P R E → List (Registered P R E) → List (Registered P R E)
  insert a [] = a ∷ []
  insert a (b ∷ bs) = if is_before a b then a ∷ b ∷ bs else b ∷ insert a bs

  unfoldable pub sort_middleware : List (Registered P R E) → List (Registered P R E)
  sort_middleware [] = []
  sort_middleware (a ∷ as_well) = insert a (sort_middleware as_well)

  abbrev pub registered : Middleware P R E → ℕ → Registered P R E
  registered m n = record { middleware = m; rank = or_else m.order 0; sequence = n }

  -- An empty name throws.
  unfoldable pub use_middleware : Middleware P R E → Pipeline P R E → Option (Pipeline P R E)
  use_middleware m p =
      if str_eq m.name ""
      then none
      else some (record {
        middleware = sort_middleware (p.middleware ++ registered m p.next_sequence ∷ []);
        next_sequence = suc p.next_sequence;
      })

  unfoldable pub use_all : List (Middleware P R E) → Pipeline P R E → Option (Pipeline P R E)
  use_all [] p = some p
  use_all (m ∷ more) p = elim (use_middleware m p) [ none ↦ none | some q ↦ use_all more q ]

  abbrev pub new_pipeline : List (Middleware P R E) → Option (Pipeline P R E)
  new_pipeline ms = use_all ms empty

  abbrev pub list : Pipeline P R E → List (Middleware P R E)
  list p = map (λ a. a.middleware) p.middleware

  abbrev pub without_first : String → List (Registered P R E) → List (Registered P R E)
  without_first name [] = []
  without_first name (a ∷ more) =
      if str_eq a.middleware.name name then more else a ∷ without_first name more

  unfoldable pub remove : String → Pipeline P R E → Pipeline P R E × Bool
  remove name p = (
    record p { middleware = without_first name p.middleware },
    any (λ a. str_eq a.middleware.name name) p.middleware,
  )

  abbrev pub clear : Pipeline P R E → Pipeline P R E
  clear p = record p { middleware = [] }

  abbrev pub after_hook : Context P R E → Outcome E (Option (Context P R E)) → Step P R E
  after_hook given (err e) = err (given, e)
  after_hook given (ok none) = ok given
  after_hook given (ok (some c)) = ok c

  unfoldable pub apply_hook : Option (Context P R E → HookReturn P R E) → Context P R E → Step P R E
  apply_hook none c = ok c
  apply_hook (some hook) c = after_hook (hook c).given (hook c).answer

  unfoldable pub pre_all : List (Registered P R E) → Context P R E → Step P R E
  pre_all [] c = ok c
  pre_all (a ∷ more) c = apply_hook a.middleware.pre c >>= pre_all more

  unfoldable pub post_all : List (Registered P R E) → Context P R E → Step P R E
  post_all [] c = ok c
  post_all (a ∷ more) c = apply_hook a.middleware.post c >>= post_all more

  unfoldable pub error_all : List (Registered P R E) → Context P R E → Step P R E
  error_all [] c = ok c
  error_all (a ∷ more) c = apply_hook a.middleware.on_error c >>= error_all more

  unfoldable pub reversed : List (Registered P R E) → List (Registered P R E)
  reversed [] = []
  reversed (a ∷ more) = reversed more ++ a ∷ []

  abbrev pub after_next : Context P R E → Outcome E R → Step P R E
  after_next given (err e) = err (given, e)
  after_next given (ok r) = ok (record given { result = some r })

  abbrev pub call_next : (Context P R E → NextReturn P R E) → Context P R E → Step P R E
  call_next next c = after_next (next c).given (next c).answer

  -- The `try` block of `execute`.
  unfoldable pub try_part :
      List (Registered P R E) → (Context P R E → NextReturn P R E) → Context P R E → Step P R E
  try_part ms next c = (pre_all ms c >>= call_next next) >>= post_all (reversed ms)

  -- The `catch` block, and what it throws; `none` is `undefined`.
  abbrev pub thrown_by : Step P R E → Option E
  thrown_by (err (c, e)) = some e
  thrown_by (ok c) = c.error

  unfoldable pub catch_part : List (Registered P R E) → Context P R E → E → Option E
  catch_part ms c e = thrown_by (error_all (reversed ms) (record c { error = some e }))

  abbrev pub ending : List (Registered P R E) → Step P R E → Outcome (Option E) (Option R)
  ending ms (ok c) = ok c.result
  ending ms (err (c, e)) = err (catch_part ms c e)

  unfoldable pub execute :
      Pipeline P R E
      → Workflow
      → String
      → P
      → (Context P R E → NextReturn P R E)
      → Dict String
      → Outcome (Option E) (Option R)
  execute p workflow operation payload next metadata = ending p.middleware (
      try_part p.middleware next (record {
        workflow = workflow;
        operation = operation;
        payload = payload;
        metadata = metadata;
        result = none;
        error = none;
      }))
