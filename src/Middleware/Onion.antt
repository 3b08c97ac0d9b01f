-- ===== src/Middleware/Onion.antt =====
-- `execute` of MiddlewarePipeline (src/middleware/pipeline.ts) puts each middleware around those after it.
use mathlib.Core.Path.{fun_ext}
use axionvera_sdk.Prelude.{
  Option, none, some, Outcome, subst, or_else, ◌≡◌, refl, ap, ◌∙◌, String, none, List, [], ◌∷◌,
  ◌++◌, ok, err, ◌>>=◌,
}
use axionvera_sdk.Prelude.Dict.{Dict}
use axionvera_sdk.Middleware.Pipeline.{
  Workflow, Context, NextReturn, Registered, Pipeline, Step, after_hook, after_next, HookReturn,
  apply_hook, pre_all, post_all, reversed, call_next, try_part, ending, execute, error_all,
  catch_part, thrown_by,
}

module _ {P R E : Type 0} where
  -- What one hook does: nothing, where there is none; else it goes on with the context that it returns, or with the
  -- one that it was given, as it left it; or it throws.
  abbrev pub hooked : Option (Context P R E → HookReturn P R E) → Context P R E → Step P R E
  hooked none c = ok c
  hooked (some hook) c = elim (hook c).answer [
    | err e ↦ err ((hook c).given, e)
    | ok o ↦ ok (or_else o (hook c).given)
  ]

  -- What `next` does: it puts its result in the context, or throws.
  abbrev pub answered : (Context P R E → NextReturn P R E) → Context P R E → Step P R E
  answered next c = elim (next c).answer [
    | err e ↦ err ((next c).given, e)
    | ok r ↦ ok (record (next c).given { result = some r })
  ]

  -- The inner call within the middleware: a middleware's `pre`, what it stands around, and its `post`.
  abbrev pub onion_of :
      (Option (Context P R E → HookReturn P R E) → Context P R E → Step P R E)
      → (Context P R E → Step P R E)
      → List (Registered P R E)
      → Context P R E
      → Step P R E
  onion_of hook inner [] c = inner c
  onion_of hook inner (a ∷ more) c =
      (hook a.middleware.pre c >>= onion_of hook inner more) >>= hook a.middleware.post

  -- The error hooks of those after a middleware are called before its own.
  abbrev pub errors_of :
      (Option (Context P R E → HookReturn P R E) → Context P R E → Step P R E)
      → List (Registered P R E)
      → Context P R E
      → Step P R E
  errors_of hook [] c = ok c
  errors_of hook (a ∷ more) c = errors_of hook more c >>= hook a.middleware.on_error

  abbrev pub onion :
      List (Registered P R E) → (Context P R E → NextReturn P R E) → Context P R E → Step P R E
  onion ms next = onion_of hooked (answered next) ms

  abbrev pub error_onion : List (Registered P R E) → Context P R E → Step P R E
  error_onion = errors_of hooked

  after_hook-hooked :
      (d : Context P R E) (o : Outcome E (Option (Context P R E)))
      → after_hook d o ≡ elim o [ err e ↦ err (d, e) | ok q ↦ ok (or_else q d) ]
  after_hook-hooked d (err e) = refl
  after_hook-hooked d (ok none) = refl
  after_hook-hooked d (ok (some q)) = refl

  apply_hook-hooked :
      (o : Option (Context P R E → HookReturn P R E)) (c : Context P R E)
      → apply_hook o c ≡ hooked o c
  unfolding apply_hook
  apply_hook-hooked none c = refl
  apply_hook-hooked (some hook) c = after_hook-hooked (hook c).given (hook c).answer

  after_next-answered :
      (d : Context P R E) (o : Outcome E R)
      → after_next d o ≡ elim o [ err e ↦ err (d, e) | ok r ↦ ok (record d { result = some r }) ]
  after_next-answered d (err e) = refl
  after_next-answered d (ok r) = refl

  same_hooks : (o : Option (Context P R E → HookReturn P R E)) → apply_hook o ≡ hooked o
  same_hooks o = fun_ext (apply_hook-hooked o)

  same_next : (next : Context P R E → NextReturn P R E) → call_next next ≡ answered next
  same_next next = fun_ext (λ c. after_next-answered (next c).given (next c).answer)

  chain_nothing : (o : Step P R E) → (o >>= post_all []) ≡ o
  unfolding post_all
  chain_nothing (err e) = refl
  chain_nothing (ok c) = refl

  -- Chains of calls that do the same after each context.
  after_all :
      (o : Step P R E) (f g h : Context P R E → Step P R E)
      → ((c : Context P R E) → f c ≡ (g c >>= h))
      → (o >>= f) ≡ ((o >>= g) >>= h)
  after_all (err e) f g h k = refl
  after_all (ok c) f g h k = k c

  regroup :
      (o : Step P R E) (f g h i : Context P R E → Step P R E)
      → ((c : Context P R E) → ((f c >>= g) >>= h) ≡ i c)
      → (((o >>= f) >>= g) >>= h) ≡ (o >>= i)
  regroup (err e) f g h i k = refl
  regroup (ok c) f g h i k = k c

  post_all-append :
      (xs : List (Registered P R E)) (a : Registered P R E) (c : Context P R E)
      → post_all (xs ++ a ∷ []) c ≡ (post_all xs c >>= apply_hook a.middleware.post)
  unfolding post_all
  post_all-append [] a c = chain_nothing (apply_hook a.middleware.post c)
  post_all-append (x ∷ xs) a c =
      after_all (apply_hook x.middleware.post c) (post_all (xs ++ a ∷ [])) (post_all xs)
        (apply_hook a.middleware.post) (post_all-append xs a)

  chain_post :
      (xs : List (Registered P R E)) (a : Registered P R E) (o : Step P R E)
      → (o >>= post_all (xs ++ a ∷ [])) ≡ ((o >>= post_all xs) >>= apply_hook a.middleware.post)
  chain_post xs a o =
      after_all o (post_all (xs ++ a ∷ [])) (post_all xs) (apply_hook a.middleware.post)
        (post_all-append xs a)

  try_part-onion :
      (ms : List (Registered P R E)) (next : Context P R E → NextReturn P R E) (c : Context P R E)
      → try_part ms next c ≡ onion_of apply_hook (call_next next) ms c
  unfolding try_part pre_all reversed
  try_part-onion [] next c = chain_nothing (call_next next c)
  try_part-onion (a ∷ more) next c =
      let o = apply_hook a.middleware.pre c in
      chain_post (reversed more) a ((o >>= pre_all more) >>= call_next next)
      ∙ ap (λ q. q >>= apply_hook a.middleware.post)
          (regroup o (pre_all more) (call_next next) (post_all (reversed more))
            (onion_of apply_hook (call_next next) more) (try_part-onion more next))

  chain_no_error : (o : Step P R E) → (o >>= error_all []) ≡ o
  unfolding error_all
  chain_no_error (err e) = refl
  chain_no_error (ok c) = refl

  error_all-append :
      (xs : List (Registered P R E)) (a : Registered P R E) (c : Context P R E)
      → error_all (xs ++ a ∷ []) c ≡ (error_all xs c >>= apply_hook a.middleware.on_error)
  unfolding error_all
  error_all-append [] a c = chain_no_error (apply_hook a.middleware.on_error c)
  error_all-append (x ∷ xs) a c =
      after_all (apply_hook x.middleware.on_error c) (error_all (xs ++ a ∷ [])) (error_all xs)
        (apply_hook a.middleware.on_error) (error_all-append xs a)

  error_all-onion :
      (ms : List (Registered P R E)) (c : Context P R E)
      → error_all (reversed ms) c ≡ errors_of apply_hook ms c
  unfolding reversed error_all
  error_all-onion [] c = refl
  error_all-onion (a ∷ more) c =
      error_all-append (reversed more) a c
      ∙ ap (λ o. o >>= apply_hook a.middleware.on_error) (error_all-onion more c)

  try_part-hooked :
      (ms : List (Registered P R E)) (next : Context P R E → NextReturn P R E) (c : Context P R E)
      → try_part ms next c ≡ onion ms next c
  try_part-hooked ms next c =
      try_part-onion ms next c
      ∙ ap (λ hook. onion_of hook (call_next next) ms c) (fun_ext same_hooks)
      ∙ ap (λ inner. onion_of hooked inner ms c) (same_next next)

  error_all-hooked :
      (ms : List (Registered P R E)) (c : Context P R E)
      → error_all (reversed ms) c ≡ error_onion ms c
  error_all-hooked ms c =
      error_all-onion ms c ∙ ap (λ hook. errors_of hook ms c) (fun_ext same_hooks)

  -- What is thrown after the error hooks: what one of them threw, or else the error that they left.
  abbrev pub left_by : Step P R E → Option E
  left_by (err (c, e)) = some e
  left_by (ok c) = c.error

  -- How a call within the middleware ends.
  abbrev pub Ends : List (Registered P R E) → Step P R E → Outcome (Option E) (Option R) → Type 0
  Ends ms (ok c) o = o ≡ ok c.result
  Ends ms (err (c, e)) o = o ≡ err (left_by (error_onion ms (record c { error = some e })))

  catch_part-onion :
      (ms : List (Registered P R E)) (c : Context P R E) (e : E)
      → catch_part ms c e ≡ left_by (error_onion ms (record c { error = some e }))
  unfolding catch_part
  catch_part-onion ms c e = same_end _ _ (error_all-hooked ms (record c { error = some e }))
    where
      same_end : (o q : Step P R E) → o ≡ q → thrown_by o ≡ left_by q
      same_end (err (d, f)) (err (g, h)) k = cc
      same_end (err (d, f)) (ok g) k = cc
      same_end (ok d) (err (g, h)) k = cc
      same_end (ok d) (ok g) k = cc

  ending-Ends : (ms : List (Registered P R E)) (o : Step P R E) → Ends ms o (ending ms o)
  ending-Ends ms (ok c) = refl
  ending-Ends ms (err (c, e)) = ap err (catch_part-onion ms c e)

  -- `execute` calls each middleware around those after it, the last around `next`, and returns the result of the
  -- context that comes out. Where a hook or `next` throws, the error hooks are called on the context that was left,
  -- with the error in it, the last middleware's first, up to one that throws; what that one threw is thrown, or else
  -- the error that stands in the context after all of them.
  pub execute-onion :
      (p : Pipeline P R E) (workflow : Workflow) (operation : String) (payload : P)
      (next : Context P R E → NextReturn P R E) (metadata : Dict String)
      → Ends p.middleware
          (onion p.middleware next (record {
            workflow = workflow;
            operation = operation;
            payload = payload;
            metadata = metadata;
            result = none;
            error = none;
          }))
          (execute p workflow operation payload next metadata)
  unfolding execute
  execute-onion p workflow operation payload next metadata =
      let c : Context P R E = record {
        workflow = workflow;
        operation = operation;
        payload = payload;
        metadata = metadata;
        result = none;
        error = none;
      } in
      subst (λ o. Ends p.middleware o (ending p.middleware (try_part p.middleware next c)))
        (try_part-hooked p.middleware next c)
        (ending-Ends p.middleware (try_part p.middleware next c))
