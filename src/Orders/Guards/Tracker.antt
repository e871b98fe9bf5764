-- ===== src/Orders/Guards/Tracker.antt =====
-- Which requests share a budget, by apps/workflow-service/src/common/user-throttler.guard.ts.
use Prim.Native.Char.{code}
use Prim.Native.String.{[], ◌∷◌}
use ecommerce_orderflow.Prelude.{
  ℕ, String, str_eq, str_append, ◌≡◌, Option, none, some, if◌then◌else◌,
}

abbrev first_code : String → ℕ
first_code [] = 0
first_code (c ∷ t) = code c

-- The user that a request names; an empty id names none.
abbrev pub caller : Option String → Option String
caller none = none
caller (some user) = if str_eq user "" then none else some user

abbrev key : Option String → String → String
key none address = str_append "ip:" address
key (some user) address = str_append "user:" user

-- Two requests with one tracker.
abbrev Shares : Option String → String → Option String → String → Type 0
Shares c a d b = (c ≡ d) × ((c ≡ none) → a ≡ b)
