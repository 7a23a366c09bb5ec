-- ===== src/Persistence/Delivery.antt =====
-- The use cases of src/application over PostgreSQL and over the in-memory adapters: how an agreement
-- of two steps carries over to what follows them.
pub mod Stored
pub mod Flow
pub mod Payload
mod Announced
pub mod Texts
mod StartFound
mod CompleteFound
mod AcceptFound
mod FailFound
pub mod Start
pub mod Complete
mod Accept
mod Fail
pub mod Handle
use processing_catalog.Action.{Action, lift, ◌>>=◌}
use processing_catalog.Persistence.Manager.{EntityManager}
use processing_catalog.Prelude.{ℕ, ◌≡◌, refl, sym}
use processing_catalog.Memory.Store.{Memory, in_memory_context, unit_of_work, rolls_back}
use processing_catalog.Outcome.{Result, ok, err}
use processing_catalog.Repository.{TransactionContext, run_in_transaction}
use processing_catalog.Persistence.View.{Agrees, tables_of}
use processing_catalog.Persistence.TypeOrm.{typeorm_unit_of_work}
use mathlib.Core.Path.{subst}
use processing_catalog.Persistence.Database.{Tables}

module _ {S : Type 0} (view : S → Tables) where
  abbrev Goes :
      {A B : Type 0} → (A → Action S B) → (A → Action Memory B) → S → Memory → Result A → Type 0
  Goes {A} f g t n r = (a : A) → r ≡ ok a → Agrees view (f a t) (g a n)

  next-Agrees :
      {A B : Type 0} (f : A → Action S B) (g : A → Action Memory B) (r : Result A) (t : S)
      (n : Memory)
      → view t ≡ tables_of n
      → Goes f g t n r
      → Agrees view ((lift r >>= f) t) ((lift r >>= g) n)
  next-Agrees f g (ok a) t n related h = h a refl
  next-Agrees f g (err e) t n related h = (refl, related)

  -- Where two calls agree, and what follows them does from any answer, the sequences agree.
  pub then-Agrees :
      {A B : Type 0} (act : Action S A) (act' : Action Memory A) (f : A → Action S B)
      (g : A → Action Memory B) (s : S) (m : Memory)
      → Agrees view (act s) (act' m)
      → ((a : A) → (act' m).0 ≡ ok a → Agrees view (f a (act s).1) (g a (act' m).1))
      → Agrees view ((act >>= f) s) ((act' >>= g) m)
  then-Agrees act act' f g s m (answer, related) h =
      subst (λ r. Agrees view ((lift r >>= f) (act s).1) ((act' >>= g) m)) (sym answer)
        (next-Agrees f g (act' m).0 (act s).1 (act' m).1 related h)

  module _ {A : Type 0} (manager : EntityManager S) (now : ℕ) (between : S → S)
      (meanwhile : Memory → Memory) (s : S) (m : Memory)
      (met : view (between s) ≡ tables_of (meanwhile m)) where
    -- A transaction that ends like this, over PostgreSQL and in memory.
    ends : Result A → S → Result A × S
    ends r t = run_in_transaction (typeorm_unit_of_work manager now between) (λ ctx x. (r, t)) s

    ends_in_memory : Result A → Memory → Result A × Memory
    ends_in_memory r n = run_in_transaction (unit_of_work rolls_back meanwhile) (λ ctx x. (r, n)) m

    ends-Agrees :
        (r : Result A) (t : S) (n : Memory)
        → view t ≡ tables_of n
        → Agrees view (ends r t) (ends_in_memory r n)
    unfolding ends ends_in_memory
    ends-Agrees (ok a) t n related = (refl, related)
    ends-Agrees (err e) t n related = (refl, met)

    pub transaction-Agrees :
        (work : TransactionContext S → Action S A)
        (work' : TransactionContext Memory → Action Memory A)
        → Agrees view
            (work (typeorm_unit_of_work manager now between).context (between s))
            (work' in_memory_context (meanwhile m))
        → Agrees view
            (run_in_transaction (typeorm_unit_of_work manager now between) work s)
            (run_in_transaction (unit_of_work rolls_back meanwhile) work' m)
    unfolding ends ends_in_memory
    transaction-Agrees work work' (answer, left) =
        let out = work (typeorm_unit_of_work manager now between).context (between s) in
        let out' = work' in_memory_context (meanwhile m) in
        subst (λ r. Agrees view (ends r out.1) (ends_in_memory out'.0 out'.1)) (sym answer)
          (ends-Agrees out'.0 out.1 out'.1 left)
