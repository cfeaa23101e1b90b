-- ===== src/Scans/Worker/Adaptive.antt =====
-- The adaptive concurrency stays between the configured bounds, and moves only on evidence.
use sistema_de_gestion_de_po.Common.{◌⊎◌, ◌≤◌, ◌<◌, Bool, true, false, List, [], ◌∷◌, arith}
use sistema_de_gestion_de_po.Scans.Worker.{
  Concurrency, Limits, base_concurrency, max_adaptive_concurrency, adapt_concurrency,
}

pub record IsBounded (c : Limits) (k : Concurrency) : Type 0 where
  pub at_least : base_concurrency c ≤ k.limit
  pub at_most : k.limit ≤ max_adaptive_concurrency c

adapt-IsBounded :
    (c : Limits) (b : Bool) (k : Concurrency)
    → IsBounded c k
    → IsBounded c (adapt_concurrency c b k)
unfolding adapt_concurrency
adapt-IsBounded c true k h = ground arith
adapt-IsBounded c false k h = ground arith

-- The concurrency after the outcomes of a row of scans.
pub adapt_all : Limits → Concurrency → List Bool → Concurrency
adapt_all c k [] = k
adapt_all c k (b ∷ bs) = adapt_all c (adapt_concurrency c b k) bs

abbrev pub initial : Limits → Concurrency
initial c = record { limit = base_concurrency c; successes = 0; failures = 0 }

adapt_all-IsBounded :
    (c : Limits) (k : Concurrency) (bs : List Bool) → IsBounded c k → IsBounded c (adapt_all c k bs)
unfolding adapt_all
adapt_all-IsBounded c k [] h = h
adapt_all-IsBounded c k (b ∷ bs) h =
    adapt_all-IsBounded c (adapt_concurrency c b k) bs (adapt-IsBounded c b k h)

-- After any outcomes of any scans the worker's limit lies between the base and the adaptive maximum.
pub concurrency-IsBounded : (c : Limits) (bs : List Bool) → IsBounded c (adapt_all c (initial c) bs)
concurrency-IsBounded c bs =
    adapt_all-IsBounded c (initial c) bs (record { at_least = omega arith; at_most = ground arith })

-- Three successes in a row raise a limit below the maximum, and two failures in a row lower a limit
-- above the base, whatever the counters are.
pub concurrency_adapts :
    (c : Limits) (k : Concurrency)
    → ((max_adaptive_concurrency c ≤ k.limit)
        ⊎ (k.limit < (adapt_all c k (true ∷ true ∷ true ∷ [])).limit))
      × ((k.limit ≤ base_concurrency c) ⊎ ((adapt_all c k (false ∷ false ∷ [])).limit < k.limit))
unfolding adapt_all adapt_concurrency
concurrency_adapts c k = (ground arith, ground arith)
