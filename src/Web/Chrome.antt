-- ===== src/Web/Chrome.antt =====
-- What stands around the pages of apps/web: the callback `session` of lib/auth.ts, lib/providers.tsx and
-- components/header.tsx.
pub mod SignOut
use ecommerce_orderflow.Prelude.{
  String, str_eq, str_append, List, [], ◌∷◌, ◌++◌, Bool, true, false, ◌&&◌, not, Option, none, some,
  if◌then◌else◌,
}
use ecommerce_orderflow.Domain.Transitions.{Role}
use ecommerce_orderflow.Web.Session.{Token, refresh_error, usable, can_place_orders}

-- `Session`, as far as the pages read it; none is `undefined`.
pub record Session : Type 0 where
  pub access_token : Option String
  pub role : Option Role
  pub user_id : Option String
  pub id_token : Option String
  pub error : Option String

-- The callback `session`; `sub` is the token's subject.
abbrev pub session : Token → Option String → Session
session token sub = record {
  access_token = token.access_token;
  role = token.role;
  user_id = sub;
  id_token = token.id_token;
  error = token.error;
}

-- The ref `handledError`, and the calls of `signOut`, by their `callbackUrl`, the latest first.
pub record Provider : Type 0 where
  pub handled_error : Bool
  pub sign_outs : List String

abbrev pub mounted : Provider
mounted = record { handled_error = false; sign_outs = [] }

-- `session?.error === "RefreshAccessTokenError"`
abbrev pub is_refresh_error : Option Session → Bool
is_refresh_error none = false
is_refresh_error (some s) = is_error s.error
  where
    is_error : Option String → Bool
    is_error none = false
    is_error (some e) = str_eq e refresh_error

-- The effect of `GraphqlProvider`.
abbrev pub effect : Option Session → Provider → Provider
effect s p =
    if is_refresh_error s && not p.handled_error
    then record { handled_error = true; sign_outs = "/login" ∷ p.sign_outs }
    else p

-- React runs the effect when the provider mounts and when the error changes, in development twice.
unfoldable pub effects : List (Option Session) → Provider → Provider
effects [] p = p
effects (s ∷ later) p = effects later (effect s p)

abbrev pub bearer : Option String → Option String
bearer none = none
bearer (some t) = some (str_append "Bearer " t)

abbrev pub token_of : Option Session → Option String
token_of none = none
token_of (some s) = s.access_token

-- `fetchOptions`: the header `Authorization` of every request.
unfoldable pub authorization : Option Session → Option String
authorization s = bearer (usable (token_of s))

-- A name and a value of the query string.
pub record Param : Type 0 where
  pub name : String
  pub value : String

abbrev pub hint : Option String → List Param
hint none = []
hint (some t) = record { name = "id_token_hint"; value = t } ∷ []

-- The address to which `handleSignOut` goes. `encode` is `URLSearchParams` and its text.
unfoldable pub logout_address : (List Param → String) → String → String → Session → String
logout_address encode issuer origin s = str_append issuer (
    str_append "/protocol/openid-connect/logout?" (
      encode (
        record { name = "post_logout_redirect_uri"; value = str_append origin "/login" }
        ∷ record { name = "client_id"; value = "web" }
        ∷ hint (usable s.id_token))))

-- What the header shows: the link to the page for new orders, and the role.
pub record Shown : Type 0 where
  pub new_order_link : Bool
  pub role : Option Role

abbrev pub has_link : Option Role → Bool
has_link none = false
has_link (some r) = can_place_orders r

unfoldable pub header : Option Session → Option Shown
unfolding can_place_orders
header none = none
header (some s) = some (record { new_order_link = has_link s.role; role = s.role })
