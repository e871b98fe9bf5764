-- ===== src/Web/Session.antt =====
-- apps/web/lib/auth.ts: the callback `jwt` and the refresh of an access token. Times are in seconds,
-- the clock in milliseconds.
pub mod Freshness
use ecommerce_orderflow.Prelude.{
  ℕ, ◌+◌, ◌-◌, ◌*◌, String, str_eq, Bool, true, false, Option, none, some, ltb, if◌then◌else◌,
}
use ecommerce_orderflow.Domain.Transitions.{Role, customer, business_admin, ops}

-- `JWT`; none is `undefined`.
pub record Token : Type 0 where
  pub access_token : Option String
  pub refresh_token : Option String
  pub id_token : Option String
  pub expires_at : Option ℕ
  pub role : Option Role
  pub error : Option String

-- The `account` of a sign-in.
pub record Account : Type 0 where
  pub access_token : Option String
  pub refresh_token : Option String
  pub id_token : Option String
  pub expires_at : Option ℕ

-- The body of a token response.
pub record Refreshed : Type 0 where
  pub access_token : String
  pub expires_in : ℕ
  pub refresh_token : Option String

-- What the request to the token endpoint came to: `fetch` or `res.json` rejected, or `res.ok` was
-- false; or the body of a success.
pub data Exchange : Type 0 where
  failed : Exchange
  granted : Refreshed → Exchange

abbrev pub or_token : Option String → Option String → Option String
or_token none b = b
or_token (some a) b = some a

abbrev pub refresh_error : String
refresh_error = "RefreshAccessTokenError"

-- `Math.floor(now / 1000)` is an argument, `seconds`.
abbrev pub refreshed : ℕ → Token → Exchange → Token
refreshed seconds token failed = record token { error = some refresh_error }
refreshed seconds token (granted r) = record token {
  access_token = some r.access_token;
  expires_at = some (seconds + r.expires_in);
  refresh_token = or_token r.refresh_token token.refresh_token;
  error = none;
}

-- `if (!token.refreshToken) throw …`: an empty one is no token.
abbrev pub usable : Option String → Option String
usable none = none
usable (some t) = if str_eq t "" then none else some t

abbrev pub exchanged : (String → Exchange) → Option String → Exchange
exchanged endpoint none = failed
exchanged endpoint (some t) = endpoint t

unfoldable pub refresh_access_token : (String → Exchange) → ℕ → Token → Token
refresh_access_token endpoint seconds token =
    refreshed seconds token (exchanged endpoint (usable token.refresh_token))

-- `token.expiresAt && Date.now() < (token.expiresAt - 30) * 1000`, with no time left below 30.
unfoldable pub is_current : ℕ → Option ℕ → Bool
is_current now none = false
is_current now (some expires_at) = ltb now ((expires_at - 30) * 1000)

abbrev pub or_customer : Option Role → Role
or_customer none = customer
or_customer (some r) = r

abbrev pub signed_in : Token → Account → Option Role → Token
signed_in token account profile_role = record token {
  access_token = account.access_token;
  refresh_token = account.refresh_token;
  id_token = account.id_token;
  expires_at = account.expires_at;
  role = some (or_customer profile_role);
}

unfoldable pub jwt : (String → Exchange) → ℕ → ℕ → Option Account → Option Role → Token → Token
unfolding refresh_access_token is_current
jwt endpoint now seconds (some account) profile_role token = signed_in token account profile_role
jwt endpoint now seconds none profile_role token =
    if is_current now token.expires_at then token else refresh_access_token endpoint seconds token

-- apps/web/components/header.tsx: who is shown the link to the page for new orders.
unfoldable pub can_place_orders : Role → Bool
can_place_orders customer = true
can_place_orders ops = false
can_place_orders business_admin = true
