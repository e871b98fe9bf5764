-- ===== src/Runtime/Laws.antt =====
-- Reasoning about calls that may throw, and the transactions of `withTransaction`.
use ecommerce_orderflow.Prelude.{refl, Bool, true, false, if◌then◌else◌, subst, ◌≡◌}
use ecommerce_orderflow.Runtime.{
  Result, ok, err, Fault, healthy, no_connection, commit_refused, commit_unacknowledged, World,
  Call, continue, ◌>>=◌, next_fault, later_faults, settle, attempt, with_transaction,
}

-- What holds of a call that returned.
abbrev pub Ensures : {S E A : Type 0} → (A → S → Type 0) → Result E A × S → Type 0
Ensures P (ok a, s) = P a s
Ensures P (err e, s) = Unit

module _ {S E A B : Type 0} (P : A → S → Type 0) (Q : B → S → Type 0) where
  continue-Ensures :
      (r : Result E A) (s : S) (f : A → Call S E B)
      → Ensures P (r, s)
      → ((a : A) (s' : S) → P a s' → Ensures Q (f a s'))
      → Ensures Q (continue r f s)
  continue-Ensures (ok a) s f h k = k a s h
  continue-Ensures (err e) s f h k = tt

  -- The rule for a bind: what the first call ensures, the second may use.
  pub bind-Ensures :
      (m : Call S E A) (f : A → Call S E B) (s : S)
      → Ensures P (m s)
      → ((a : A) (s' : S) → P a s' → Ensures Q (f a s'))
      → Ensures Q ((m >>= f) s)
  bind-Ensures m f s h k = let (r, s') = m s in continue-Ensures r s' f h k

-- The state in which the body of a transaction starts.
abbrev pub begun : {D M : Type 0} → World D M → World D M
begun w = record w { faults = later_faults w.faults }

module _ {D M E A : Type 0} where
  settle-keeps :
      (P : D → Type 0) (f : Fault) (down : E) (w w' : World D M) (r : Result E A)
      → P w.db
      → Ensures (λ _ v. P v.db) (r, w')
      → P (settle f down w (r, w')).1.db
  settle-keeps P healthy down w w' (ok a) h k = k
  settle-keeps P no_connection down w w' (ok a) h k = h
  settle-keeps P commit_refused down w w' (ok a) h k = h
  settle-keeps P commit_unacknowledged down w w' (ok a) h k = k
  settle-keeps P healthy down w w' (err e) h k = h
  settle-keeps P no_connection down w w' (err e) h k = h
  settle-keeps P commit_refused down w w' (err e) h k = h
  settle-keeps P commit_unacknowledged down w w' (err e) h k = h

  attempt-keeps :
      (P : D → Type 0) (f : Fault) (down : E) (body : Call (World D M) E A) (w : World D M)
      → P w.db
      → Ensures (λ _ v. P v.db) (body w)
      → P (attempt f down body w).1.db
  attempt-keeps P no_connection down body w h k = h
  attempt-keeps P healthy down body w h k = settle-keeps P healthy down w (body w).1 (body w).0 h k
  attempt-keeps P commit_refused down body w h k =
      settle-keeps P commit_refused down w (body w).1 (body w).0 h k
  attempt-keeps P commit_unacknowledged down body w h k =
      settle-keeps P commit_unacknowledged down w (body w).1 (body w).0 h k

  -- A transaction keeps what its body ensures when it returns, whatever the driver does.
  pub with_transaction-keeps :
      (P : D → Type 0) (down : E) (body : Call (World D M) E A) (w : World D M)
      → P w.db
      → Ensures (λ _ v. P v.db) (body (begun w))
      → P (with_transaction down body w).1.db
  unfolding with_transaction
  with_transaction-keeps P down body w h k =
      attempt-keeps P (next_fault w.faults) down body (begun w) h k

  settle-Ensures :
      (P : A → World D M → Type 0) (f : Fault) (down : E) (w : World D M)
      (x : Result E A × World D M)
      → Ensures P x
      → Ensures P (settle f down w x)
  settle-Ensures P healthy down w (ok a, w') h = h
  settle-Ensures P no_connection down w (ok a, w') h = tt
  settle-Ensures P commit_refused down w (ok a, w') h = tt
  settle-Ensures P commit_unacknowledged down w (ok a, w') h = tt
  settle-Ensures P healthy down w (err e, w') h = tt
  settle-Ensures P no_connection down w (err e, w') h = tt
  settle-Ensures P commit_refused down w (err e, w') h = tt
  settle-Ensures P commit_unacknowledged down w (err e, w') h = tt

  attempt-Ensures :
      (P : A → World D M → Type 0) (f : Fault) (down : E) (body : Call (World D M) E A)
      (w : World D M)
      → Ensures P (body w)
      → Ensures P (attempt f down body w)
  attempt-Ensures P no_connection down body w h = tt
  attempt-Ensures P healthy down body w h = settle-Ensures P healthy down w (body w) h
  attempt-Ensures P commit_refused down body w h = settle-Ensures P commit_refused down w (body w) h
  attempt-Ensures P commit_unacknowledged down body w h =
      settle-Ensures P commit_unacknowledged down w (body w) h

  -- A transaction that returns has kept the promise of its body.
  pub with_transaction-Ensures :
      (P : A → World D M → Type 0) (down : E) (body : Call (World D M) E A) (w : World D M)
      → Ensures P (body (begun w))
      → Ensures P (with_transaction down body w)
  unfolding with_transaction
  with_transaction-Ensures P down body w h =
      attempt-Ensures P (next_fault w.faults) down body (begun w) h

-- What a call ensures, once it is known to have returned.
pub Ensures-ok :
    {S E A : Type 0} (P : A → S → Type 0) (r : Result E A × S) (a : A)
    → r.0 ≡ ok a
    → Ensures P r
    → P a r.1
Ensures-ok P (r, s) a e h = subst (λ x. Ensures P (x, s)) e h

module _ {S E A : Type 0} (P Q : A → S → Type 0) where
  -- A weaker promise.
  pub Ensures-map :
      (r : Result E A × S) → ((a : A) (s : S) → P a s → Q a s) → Ensures P r → Ensures Q r
  Ensures-map (ok a, s) f h = f a s h
  Ensures-map (err e, s) f h = tt

module _ {S E A : Type 0} (P : A → S → Type 0) where
  -- A test, whichever way it goes.
  pub Ensures-if :
      (b : Bool) (x y : Result E A × S)
      → (b ≡ true → Ensures P x)
      → (b ≡ false → Ensures P y)
      → Ensures P (if b then x else y)
  Ensures-if true x y h k = h refl
  Ensures-if false x y h k = k refl
