-- ===== src/Orders/Edge/Sessions.antt =====
-- Which session variables apps/workflow-service/src/common/session.ts accepts.
use ecommerce_orderflow.Prelude.{
  ℕ, String, str_eq, eq_iff, ◌≡◌, refl, ap, ◌↔◌, ◌⊎◌, inl, inr, Option, none, some, Bool-cases,
  Option-cases, arith,
}
use ecommerce_orderflow.Runtime.{ok}
use ecommerce_orderflow.Domain.Transitions.{Role, customer, ops, business_admin}
use ecommerce_orderflow.Orders.Transition.{Session}
use ecommerce_orderflow.Orders.Edge.{
  SessionVariables, parse_role, parse_user, named_role, session_of, parse_session,
}

-- The names of the roles.
abbrev pub role_name : Role → String
role_name customer = "customer"
role_name ops = "ops"
role_name business_admin = "business_admin"

parse_role-role_name : (r : Role) → parse_role (role_name r) ≡ some r
unfolding parse_role
parse_role-role_name customer = refl
parse_role-role_name ops = refl
parse_role-role_name business_admin = refl

parse_role_lem : (t : String) (r : Role) → parse_role t ≡ some r → t ≡ role_name r
unfolding parse_role
parse_role_lem t r e = elim (Bool-cases (str_eq t "customer")) [
  | inl h ↦ let x = (eq_iff t "customer").0 h in ground (arith, e, h, x)
  | inr h ↦ elim (Bool-cases (str_eq t "ops")) [
    | inl k ↦ let x = (eq_iff t "ops").0 k in ground (arith, e, h, k, x)
    | inr k ↦ elim (Bool-cases (str_eq t "business_admin")) [
      | inl m ↦ let x = (eq_iff t "business_admin").0 m in ground (arith, e, h, k, m, x)
      | inr m ↦ ground (arith, e, h, k, m)
    ]
  ]
]

named_role_lem : (x : Option String) (r : Role) → named_role x ≡ some r → x ≡ some (role_name r)
named_role_lem none r e = cc
named_role_lem (some t) r e = ap some (parse_role_lem t r e)

-- What the two sides say of the user.
abbrev ReadsUser : (String → Option ℕ) → Option String → Option ℕ → Type 0
ReadsUser uuid x u =
    ((x ≡ none) × (u ≡ none))
    ⊎ ((t : String) × (n : ℕ) × (x ≡ some t) × (uuid t ≡ some n) × (u ≡ some n))

parse_user-ReadsUser :
    (uuid : String → Option ℕ) (x : Option String) (u : Option ℕ)
    → parse_user uuid x ≡ some u
    → ReadsUser uuid x u
parse_user-ReadsUser uuid none u e = inl (refl, ground (arith, e))
parse_user-ReadsUser uuid (some t) u e = elim (Option-cases (uuid t)) [
  | inl h ↦ ground (arith, e, h)
  | inr (n, h) ↦ inr (t, n, refl, h, ground (arith, e, h))
]

session_of_lem :
    (r : Option Role) (u : Option (Option ℕ)) (s : Session)
    → session_of r u ≡ ok s
    → (r ≡ some s.role) × (u ≡ some s.user_id)
session_of_lem none u s e = cc
session_of_lem (some r) none s e = cc
session_of_lem (some r) (some u) s e = ground (arith, e)

ReadsUser-parse_user :
    (uuid : String → Option ℕ) (x : Option String) (u : Option ℕ)
    → ReadsUser uuid x u
    → parse_user uuid x ≡ some u
ReadsUser-parse_user uuid x u (inl (a, b)) = rw (a, b)
ReadsUser-parse_user uuid x u (inr (t, n, a, h, b)) = rw (a, h, b)

-- `parseSession` returns a session exactly when the role's variable is the name of the session's role,
-- and the user's variable is missing, for no user, or reads as the UUID of the session's user.
pub parse_session_iff :
    (uuid : String → Option ℕ) (vars : SessionVariables) (s : Session)
    → (parse_session uuid vars ≡ ok s) ↔ (
        (vars.role ≡ some (role_name s.role))
        × (((vars.user_id ≡ none) × (s.user_id ≡ none))
            ⊎ ((t : String) × (n : ℕ) × (vars.user_id ≡ some t)
                × (uuid t ≡ some n)
                × (s.user_id ≡ some n))))
unfolding parse_session
parse_session_iff uuid vars s = (forth, back)
  where
    forth :
        parse_session uuid vars ≡ ok s
        → (vars.role ≡ some (role_name s.role)) × ReadsUser uuid vars.user_id s.user_id
    forth e =
        let (r, u) = session_of_lem (named_role vars.role) (parse_user uuid vars.user_id) s e in
        (named_role_lem vars.role s.role r, parse_user-ReadsUser uuid vars.user_id s.user_id u)

    back :
        (vars.role ≡ some (role_name s.role)) × ReadsUser uuid vars.user_id s.user_id
        → parse_session uuid vars ≡ ok s
    back (r, u) =
        rw (r, parse_role-role_name s.role, ReadsUser-parse_user uuid vars.user_id s.user_id u)
