-- ===== src/Web/Chrome/SignOut.antt =====
-- When lib/providers.tsx of apps/web signs out a session that lib/auth.ts could not renew.
use ecommerce_orderflow.Prelude.{
  ℕ, String, ◌≡◌, refl, ap, ◌∙◌, List, [], ◌∷◌, true, false, Option, some, any, Bool-cases, inl,
  inr, if◌then◌else◌,
}
use ecommerce_orderflow.Web.Session.{Token, failed, refreshed}
use ecommerce_orderflow.Web.Chrome.{
  Session, session, Provider, mounted, is_refresh_error, effect, effects,
}

handled-effects :
    (ss : List (Option Session)) (calls : List String)
    → effects ss (record { handled_error = true; sign_outs = calls })
      ≡ record { handled_error = true; sign_outs = calls }
unfolding effects
handled-effects [] calls = refl
handled-effects (s ∷ ss) calls = elim (Bool-cases (is_refresh_error s)) [
  | inl e ↦ rw e (handled-effects ss calls)
  | inr e ↦ rw e (handled-effects ss calls)
]

signed_out : Provider
signed_out = record { handled_error = true; sign_outs = "/login" ∷ [] }

effect-signed_out : (s : Option Session) → is_refresh_error s ≡ true → effect s mounted ≡ signed_out
unfolding signed_out
effect-signed_out s e = rw e refl

effect-mounted : (s : Option Session) → is_refresh_error s ≡ false → effect s mounted ≡ mounted
effect-mounted s e = rw e refl

-- However often React runs the effect, and with whatever sessions, it signs out once if a session had failed
-- to renew its token, and not at all otherwise.
effects_once :
    (ss : List (Option Session))
    → (effects ss mounted).sign_outs ≡ (if any is_refresh_error ss then "/login" ∷ [] else [])
unfolding effects
effects_once [] = refl
effects_once (s ∷ ss) = elim (Bool-cases (is_refresh_error s)) [
  | inl e ↦
      ap (λ p. (effects ss p).sign_outs) (effect-signed_out s e)
      ∙ unfold signed_out in ap (λ p. p.sign_outs) (handled-effects ss ("/login" ∷ [])) ∙ rw e refl
  | inr e ↦ ap (λ p. (effects ss p).sign_outs) (effect-mounted s e) ∙ effects_once ss ∙ rw e refl
]

-- A token that the endpoint did not renew makes such a session.
refreshed-failed :
    (seconds : ℕ) (token : Token) (sub : Option String)
    → is_refresh_error (some (session (refreshed seconds token failed) sub)) ≡ true
refreshed-failed seconds token sub = refl
