-- ===== src/Interface/Http.antt =====
-- What a handler of src/interface answers: a status with a body, or an exception of Nest.
use Prim.Native.Nat.{ℕ}
use processing_catalog.Prelude.{String, ℕ}
use processing_catalog.Outcome.{Error}
use Prim.Native.String.{String}

pub data HttpError : Type 0 where
  bad_request conflict not_found service_unavailable : (message : String) → HttpError
  -- any other error, which Nest answers with status 500
  unhandled : Error → HttpError

pub data Answer (A : Type 0) : Type 0 where
  answered : (status : ℕ) → A → Answer A
  refused : HttpError → Answer A

pub data Checked (A : Type 0) : Type 0 where
  passed : A → Checked A
  failed : HttpError → Checked A

abbrev pub ◌>>=◌ : {A B : Type 0} → Checked A → (A → Checked B) → Checked B
passed a >>= f = f a
failed e >>= f = failed e

infixl 5 ◌>>=◌
-- A handler goes on with what a check gives, or throws what it throws.
abbrev pub checked : {S A B : Type 0} → Checked A → (A → S → Answer B × S) → S → Answer B × S
checked (passed a) f s = f a s
checked (failed e) f s = (refused e, s)
