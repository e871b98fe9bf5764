-- ===== src/Web/Session/Freshness.antt =====
-- What the callback `jwt` of apps/web/lib/auth.ts leaves in a session.
use ecommerce_orderflow.Prelude.{
  ℕ, ◌+◌, ◌*◌, ◌<◌, ◌≡◌, ◌⊎◌, ◌↔◌, refl, inl, inr, String, str_eq, eq_iff, ap, ◌∙◌, true, Option,
  none, some, arith, Bool-cases,
}
use ecommerce_orderflow.Domain.Transitions.{Role}
use ecommerce_orderflow.Web.Session.{
  Token, Refreshed, Exchange, failed, granted, refreshed, usable, exchanged, refresh_access_token,
  is_current, jwt, or_token,
}

-- The access token is good for more than 30 seconds.
abbrev IsGood : ℕ → Token → Type 0
IsGood now token = (t : ℕ) × (token.expires_at ≡ some t) × (now + 30000 < t * 1000)

-- No refresh token, or the endpoint has not granted one.
abbrev NotGranted : (String → Exchange) → Token → Type 0
NotGranted endpoint token =
    (token.refresh_token ≡ none)
    ⊎ (token.refresh_token ≡ some "")
    ⊎ ((old : String) × (token.refresh_token ≡ some old) × (endpoint old ≡ failed))

-- What a request of a session that exists comes to: the token is kept, renewed, or marked.
pub data Renewal (endpoint : String → Exchange) (now seconds : ℕ) (token after : Token)
    : Type 0 where
  kept : IsGood now token → after ≡ token → Renewal endpoint now seconds token after
  renewed :
      (old : String) (r : Refreshed)
      → ¬ IsGood now token
      → token.refresh_token ≡ some old
      → endpoint old ≡ granted r
      → after ≡ record token {
        access_token = some r.access_token;
        expires_at = some (seconds + r.expires_in);
        refresh_token = or_token r.refresh_token (some old);
        error = none;
      }
      → Renewal endpoint now seconds token after
  marked :
      ¬ IsGood now token
      → NotGranted endpoint token
      → after ≡ record token { error = some "RefreshAccessTokenError" }
      → Renewal endpoint now seconds token after

is_current_lem :
    (now : ℕ) (x : Option ℕ)
    → (is_current now x ≡ true) ↔ ((t : ℕ) × (x ≡ some t) × (now + 30000 < t * 1000))
unfolding is_current
is_current_lem now none = (λ h. cc, λ (t, e, h). cc)
is_current_lem now (some t) = (λ h. (t, refl, ground (arith, h)), λ (u, e, h). ground (arith, e, h))

refreshed-Renewal :
    (endpoint : String → Exchange) (now seconds : ℕ) (token : Token) (old : String) (x : Exchange)
    → ¬ IsGood now token
    → token.refresh_token ≡ some old
    → endpoint old ≡ x
    → Renewal endpoint now seconds token (refreshed seconds token x)
refreshed-Renewal endpoint now seconds token old failed n e f =
    marked n (inr (inr (old, e, f))) refl
refreshed-Renewal endpoint now seconds token old (granted r) n e f = renewed old r n e f (rw e refl)

usable-Renewal :
    (endpoint : String → Exchange) (now seconds : ℕ) (token : Token) (x : Option String)
    → ¬ IsGood now token
    → token.refresh_token ≡ x
    → Renewal endpoint now seconds token (refreshed seconds token (exchanged endpoint (usable x)))
usable-Renewal endpoint now seconds token none n e = marked n (inl e) refl
usable-Renewal endpoint now seconds token (some old) n e = elim (Bool-cases (str_eq old "")) [
  | inl h ↦ rw h (marked n (inr (inl (e ∙ ap some ((eq_iff old "").0 h)))) refl)
  | inr h ↦ rw h (refreshed-Renewal endpoint now seconds token old (endpoint old) n e refl)
]

refresh-Renewal :
    (endpoint : String → Exchange) (now seconds : ℕ) (token : Token)
    → ¬ IsGood now token
    → Renewal endpoint now seconds token (refresh_access_token endpoint seconds token)
unfolding refresh_access_token
refresh-Renewal endpoint now seconds token n =
    usable-Renewal endpoint now seconds token token.refresh_token n refl

-- A session is never left with a dead token in silence: on a request of a session that exists, the
-- callback keeps the token when it is good for more than 30 seconds; else it takes over what the endpoint
-- grants for the refresh token, and clears the error; else, when there is no refresh token or the
-- endpoint grants none, it marks the session and keeps the rest of it.
pub jwt-Renewal :
    (endpoint : String → Exchange) (now seconds : ℕ) (profile_role : Option Role) (token : Token)
    → Renewal endpoint now seconds token (jwt endpoint now seconds none profile_role token)
unfolding jwt
jwt-Renewal endpoint now seconds profile_role token =
    elim (Bool-cases (is_current now token.expires_at)) [
      | inl h ↦ rw h (kept ((is_current_lem now token.expires_at).0 h) refl)
      | inr h ↦ rw h (
          refresh-Renewal endpoint now seconds token
            (λ g. let k = (is_current_lem now token.expires_at).1 g in cc))
    ]
