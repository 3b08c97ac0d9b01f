-- ===== src/Middleware/Tests.antt =====
-- A pipeline of two middleware (src/middleware/pipeline.ts), with payloads, results and errors that are numbers.
use axionvera_sdk.Prelude.{
  ℕ, ◌+◌, ◌*◌, ◌≡◌, refl, Option, none, some, List, [], ◌∷◌, map, or_else, ok, err,
}
use axionvera_sdk.Middleware.Pipeline.{
  request, Context, HookReturn, NextReturn, Middleware, Pipeline, empty, execute, insert,
  sort_middleware, use_middleware, remove, apply_hook, pre_all, post_all, error_all, reversed,
  try_part, catch_part,
}
use axionvera_sdk.Middleware.Onion.{onion, Ends, execute-onion}
use axionvera_sdk.Middleware.Order.{Call, uses, after_call, after_calls}

-- What the tests compute with.
unfoldable pipelines : Unit {0}
unfolding execute insert sort_middleware use_middleware remove apply_hook pre_all post_all error_all
    reversed try_part catch_part after_call after_calls
pipelines = tt

abbrev Ctx : Type 0
Ctx = Context ℕ ℕ ℕ

abbrev map_result : (ℕ → ℕ) → Option ℕ → Option ℕ
map_result f none = none
map_result f (some r) = some (f r)

abbrev changes : (Ctx → Ctx) → Ctx → HookReturn ℕ ℕ ℕ
changes f c = record { given = f c; answer = ok none }

-- One adds before and after, the other doubles.
abbrev adds : Middleware ℕ ℕ ℕ
adds = record {
  name = "adds";
  order = some 2;
  pre = some (changes (λ c. record c { payload = c.payload + 1 }));
  post = some (changes (λ c. record c { result = map_result (λ r. r + 1) c.result }));
  on_error = none;
}

abbrev doubles : Middleware ℕ ℕ ℕ
doubles = record {
  name = "doubles";
  order = none;
  pre = some (changes (λ c. record c { payload = c.payload * 2 }));
  post = some (changes (λ c. record c { result = map_result (λ r. r * 2) c.result }));
  on_error = none;
}

-- An error hook that returns a context without the error.
abbrev forgets : Middleware ℕ ℕ ℕ
forgets = record {
  name = "forgets";
  order = none;
  pre = none;
  post = none;
  on_error = some (λ c. record { given = c; answer = ok (some (record c { error = none })) });
}

abbrev calls : List (Call ℕ ℕ ℕ)
calls = uses adds ∷ uses doubles ∷ []

abbrev pipeline : Pipeline ℕ ℕ ℕ
pipeline = after_calls calls empty

abbrev passes : Ctx → NextReturn ℕ ℕ ℕ
passes c = record { given = c; answer = ok c.payload }

abbrev fails : Ctx → NextReturn ℕ ℕ ℕ
fails c = record { given = c; answer = err 404 }

names : map (λ a. a.middleware.name) pipeline.middleware ≡ "doubles" ∷ "adds" ∷ []
unfolding pipelines
names = refl

-- (3 * 2 + 1 + 1) * 2
around : execute pipeline request "call" 3 passes [] ≡ ok (some 16)
unfolding pipelines
around = refl

-- The error is lost, and `undefined` is thrown.
lost : execute (after_calls (uses forgets ∷ []) empty) request "call" 3 fails [] ≡ err none
unfolding pipelines
lost = refl

-- The last error hook adds a hundred, the first one gives up with twice that.
abbrev raises : Middleware ℕ ℕ ℕ
raises = record adds {
  on_error = some (changes (λ c. record c { error = map_result (λ e. e + 100) c.error }));
}

abbrev gives_up : Middleware ℕ ℕ ℕ
gives_up = record doubles {
  on_error = some (λ c. record { given = c; answer = err (2 * or_else c.error 0) });
}

abbrev failing : Pipeline ℕ ℕ ℕ
failing = after_calls (uses raises ∷ uses gives_up ∷ []) empty

abbrev called_with : Ctx
called_with = record {
  workflow = request;
  operation = "call";
  payload = 3;
  metadata = [];
  result = none;
  error = none;
}

-- 2 * (404 + 100)
hooks_in_turn : execute failing request "call" 3 fails [] ≡ err (some 1008)
unfolding pipelines
hooks_in_turn = refl

execute-onion_example :
    Ends failing.middleware
      (onion failing.middleware fails called_with)
      (execute failing request "call" 3 fails [])
execute-onion_example = execute-onion failing request "call" 3 fails []
