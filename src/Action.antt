-- ===== src/Action.antt =====
-- An awaited step of the program: from a state to a result or an error, and the state after it.
-- What was written before an error is thrown stays written, so the state comes beside the error.
use processing_catalog.Outcome.{Error, Result, ok, err}

abbrev pub Action : Type 0 → Type 0 → Type 0
Action S A = S → Result A × S

abbrev pub return : {S A : Type 0} → A → Action S A
return a s = (ok a, s)

abbrev pub throw : {S A : Type 0} → Error → Action S A
throw e s = (err e, s)

-- a function that awaits nothing
abbrev pub lift : {S A : Type 0} → Result A → Action S A
lift r s = (r, s)

abbrev continue : {S A B : Type 0} → Result A → (A → Action S B) → Action S B
continue (ok a) f s = f a s
continue (err e) f s = (err e, s)

abbrev pub ◌>>=◌ : {S A B : Type 0} → Action S A → (A → Action S B) → Action S B
◌>>=◌ first next s = continue (first s).0 next (first s).1

infixl 5 ◌>>=◌
abbrev pub ◌>>◌ : {S B : Type 0} → Action S (Unit {0}) → Action S B → Action S B
first >> next = first >>= λ done. next

infixl 5 ◌>>◌
