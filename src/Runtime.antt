-- ===== src/Runtime.antt =====
-- What the two services run on: calls that read and write a database and may throw, and the
-- transactions of `withTransaction` (apps/*/src/db/*.repository.ts).
--
-- The PostgreSQL driver is outside the repository. It enters as a script of faults, one for each
-- transaction that is still to come; a script that has run out means a healthy database.

pub mod Laws
use ecommerce_orderflow.Prelude.{List, [], ◌∷◌}

pub data Result (E A : Type 0) : Type 0 where
  ok : A → Result E A
  err : E → Result E A

-- How the driver fails a transaction: `connect` rejects; `commit` is refused and the database rolls
-- back; or the commit takes effect and its acknowledgement is lost.
pub data Fault : Type 0 where
  healthy no_connection commit_refused commit_unacknowledged : Fault

-- Counters are process memory: a rollback does not take their increments back.
pub record World (D M : Type 0) : Type 0 where
  pub db : D
  pub metrics : M
  pub faults : List Fault

abbrev pub Action : Type 0 → Type 0 → Type 0
Action S A = S → A × S

-- An asynchronous call: it resolves or rejects, and the state goes on either way.
abbrev pub Call : Type 0 → Type 0 → Type 0 → Type 0
Call S E A = S → Result E A × S

module _ {S E A : Type 0} where
  abbrev pub pure : A → Call S E A
  pure a s = (ok a, s)

  abbrev pub throw : E → Call S E A
  throw e s = (err e, s)

  abbrev pub gets : (S → A) → Call S E A
  gets f s = (ok (f s), s)

module _ {S E A B : Type 0} where
  abbrev pub continue : Result E A → (A → Call S E B) → Call S E B
  continue (ok a) f s = f a s
  continue (err e) f s = (err e, s)

  infixl 5 ◌>>=◌
  abbrev pub ◌>>=◌ : Call S E A → (A → Call S E B) → Call S E B
  ◌>>=◌ m f s = let (r, s') = m s in continue r f s'

infixl 5 ◌>>◌
abbrev pub ◌>>◌ : {S E B : Type 0} → Call S E (Unit {0}) → Call S E B → Call S E B
m >> k = m >>= λ _. k

abbrev pub roll_back : {D M : Type 0} → World D M → World D M → World D M
roll_back before after = record after { db = before.db }

abbrev pub next_fault : List Fault → Fault
next_fault [] = healthy
next_fault (f ∷ fs) = f

abbrev pub later_faults : List Fault → List Fault
later_faults [] = []
later_faults (f ∷ fs) = fs

module _ {D M E A : Type 0} where
  -- The body has run; the transaction commits, unless the body threw.
  abbrev pub settle : Fault → E → World D M → Result E A × World D M → Result E A × World D M
  settle healthy down w (ok a, w') = (ok a, w')
  settle no_connection down w (ok a, w') = (err down, roll_back w w')
  settle commit_refused down w (ok a, w') = (err down, roll_back w w')
  settle commit_unacknowledged down w (ok a, w') = (err down, w')
  settle f down w (err e, w') = (err e, roll_back w w')

  abbrev pub attempt : Fault → E → Call (World D M) E A → Call (World D M) E A
  attempt no_connection down body w = (err down, w)
  attempt healthy down body w = settle healthy down w (body w)
  attempt commit_refused down body w = settle commit_refused down w (body w)
  attempt commit_unacknowledged down body w = settle commit_unacknowledged down w (body w)

  -- `withTransaction(fn)`: `down` is the error that the driver throws.
  unfoldable pub with_transaction : E → Call (World D M) E A → Call (World D M) E A
  with_transaction down body w =
      attempt (next_fault w.faults) down body (record w { faults = later_faults w.faults })
