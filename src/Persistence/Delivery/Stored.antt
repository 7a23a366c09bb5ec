-- ===== src/Persistence/Delivery/Stored.antt =====
-- What is stored under an id in the in-memory adapters.
use processing_catalog.Prelude.{
  String, ◌≡◌, ap, some, List, [], ◌∷◌, arith, eq_iff, All, Bool-cases, inl, inr, ◌==◌,
}
use processing_catalog.Outcome.{Result, ok, err}
use processing_catalog.Map.{get}
use processing_catalog.Domain.Request.{ProcessingRequest}
use mathlib.Core.Path.{subst}
use mathlib.Core.Option.{some-injective}

value_or : {A : Type 0} → A → Result A → A
value_or fallback (ok a) = a
value_or fallback (err e) = fallback

pub ok-injective : {A : Type 0} (a b : A) → ok a ≡ ok b → a ≡ b
unfolding value_or
ok-injective a b e = ap (value_or a) e

-- A request stands under its own id.
pub keyed_id :
    (id : String) (m : List (String × ProcessingRequest)) (r : ProcessingRequest)
    → All (λ e. e.1.processing_request_id ≡ e.0) m
    → get id m ≡ some r
    → r.processing_request_id ≡ id
unfolding get
keyed_id id [] r h g = ground arith
keyed_id id ((k, q) ∷ m) r h g = ground (arith, h.0, keyed_id id m r h.1, eq_iff k id)

pub All-get :
    (P : ProcessingRequest → Type 0) (id : String) (m : List (String × ProcessingRequest))
    (r : ProcessingRequest)
    → All (λ e. P e.1) m
    → get id m ≡ some r
    → P r
unfolding get
All-get P id [] r h g = ground arith
All-get P id ((k, q) ∷ m) r h g = elim (Bool-cases (k == id)) [
  | inl here ↦ subst P (some-injective q r (ground (arith, here, g))) h.0
  | inr there ↦ All-get P id m r h.1 (ground (arith, there, g))
]
