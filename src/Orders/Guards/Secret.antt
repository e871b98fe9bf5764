-- ===== src/Orders/Guards/Secret.antt =====
-- Whom apps/workflow-service/src/common/hasura-auth.guard.ts lets in.
use mathlib.Core.Option.{some_inj}
use ecommerce_orderflow.Prelude.{
  Bool, ==_iff, String, str_eq, eq_iff, ◌≡◌, ◌≢◌, ◌↔◌, refl, ap, sym, true, false, Option, none,
  some, ==_self, ◌&&◌, Bool-cases, inl, inr,
}
use ecommerce_orderflow.Orders.Guards.{Crypto, matches_secret, can_activate}

both : (a b : Bool) → (a && b) ≡ true → (a ≡ true) × (b ≡ true)
both true b e = (refl, e)
both false b e = absurd (cc)

not_empty : (t : String) → t ≢ "" → str_eq t "" ≡ false
not_empty t n = elim (Bool-cases (str_eq t "")) [
  | inl e ↦ absurd (n ((eq_iff t "").0 e))
  | inr e ↦ e
]

-- The two tests of `matchesSecret`.
matched :
    (crypto : Crypto) (secret given : String)
    → matches_secret crypto secret given ≡ true
    → (crypto.length (crypto.utf8 secret) ≡ crypto.length (crypto.utf8 given))
      × (crypto.timing_safe_equal (crypto.utf8 secret) (crypto.utf8 given) ≡ true)
unfolding matches_secret
matched crypto secret given e = let (h, k) = both _ _ e in ((==_iff _ _).0 h, k)

-- With a configured secret that is no empty string, given that the encoding loses nothing and that
-- timingSafeEqual compares buffers of one length, exactly the requests with that secret in the header
-- are let in.
pub can_activate_iff :
    (crypto : Crypto)
    → ((s t : String) → crypto.utf8 s ≡ crypto.utf8 t → s ≡ t)
    → ((a b : crypto.Buffer)
        → crypto.length a ≡ crypto.length b
        → (crypto.timing_safe_equal a b ≡ true) ↔ (a ≡ b))
    → (action_secret : String) (header : Option String) → action_secret ≢ ""
    → (can_activate crypto action_secret header ≡ true) ↔ (header ≡ some action_secret)
unfolding can_activate matches_secret
can_activate_iff crypto inj eq secret none n = (λ e. cc, λ e. cc)
can_activate_iff crypto inj eq secret (some given) n = (
  λ e.
      let k = matched crypto secret given ((both _ _ e).1) in
      ap some (sym (inj secret given ((eq _ _ k.0).0 k.1))),
  λ e.
      let q = some_inj.0 e in
      rw q (
        rw (not_empty secret n, ==_self (crypto.length (crypto.utf8 secret)))
          ((eq (crypto.utf8 secret) (crypto.utf8 secret) refl).1 refl)),
)
