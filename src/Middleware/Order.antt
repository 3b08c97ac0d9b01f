-- ===== src/Middleware/Order.antt =====
-- The order of the middleware of MiddlewarePipeline (src/middleware/pipeline.ts).
use axionvera_sdk.Prelude.{
  ◌<◌, ◌≤◌, ◌⊎◌, ◌↔◌, ◌≢◌, In, ◌≡◌, String, true, List, [], ◌∷◌, All, or_else,
}
use axionvera_sdk.Middleware.Pipeline.{
  Middleware, Registered, Pipeline, is_before, use_middleware, remove, clear,
}

pub data Call (P R E : Type 0) : Type 0 where
  uses : Middleware P R E → Call P R E
  removes : String → Call P R E
  clears : Call P R E

module _ {P R E : Type 0} where
  unfoldable pub after_call : Call P R E → Pipeline P R E → Pipeline P R E
  after_call (uses m) p = or_else (use_middleware m p) p
  after_call (removes name) p = (remove name p).0
  after_call clears p = clear p

  unfoldable pub after_calls : List (Call P R E) → Pipeline P R E → Pipeline P R E
  after_calls [] p = p
  after_calls (c ∷ cs) p = after_calls cs (after_call c p)

  abbrev pub IsSorted : List (Registered P R E) → Type 0
  IsSorted [] = Unit
  IsSorted (a ∷ more) = All (λ b. is_before a b ≡ true) more × IsSorted more

  -- Of a lower order, or of the same and registered no later.
  abbrev pub Precedes : Registered P R E → Registered P R E → Type 0
  Precedes a b = (a.rank < b.rank) ⊎ ((a.rank ≡ b.rank) × (a.sequence ≤ b.sequence))

  abbrev pub InOrder : List (Registered P R E) → Type 0
  InOrder [] = Unit
  InOrder (a ∷ more) = All (Precedes a) more × InOrder more

  -- Every middleware that is registered is added, none is lost, and none of an empty name is registered.
  abbrev pub Adds : Middleware P R E → Pipeline P R E → Pipeline P R E → Type 0
  Adds m p q =
      ((m.name ≡ "") × (q ≡ p))
      ⊎ ((m.name ≢ "")
          × ((x : Registered P R E)
              → In x q.middleware ↔ (
                  In x p.middleware
                  ⊎ (x ≡ record {
                    middleware = m;
                    rank = or_else m.order 0;
                    sequence = p.next_sequence;
                  }))))
