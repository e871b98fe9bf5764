-- ===== src/Config.antt =====
-- What the programs read from their environment: packages/config/src/env.ts, and config/config.module.ts of
-- both services. An error holds the names of the variables that have an issue, in the schema's order, each
-- once, without the messages.
pub mod Secured
mod Tests
use ecommerce_orderflow.Prelude.{
  ℕ, String, str_eq, List, [], ◌∷◌, ◌++◌, Bool, Option, none, some, ℤ, pos, negsuc, ltb, any,
  if◌then◌else◌,
}
use ecommerce_orderflow.Runtime.{Result, ok, err}

-- `process.env`
abbrev pub Environment : Type 0
Environment = String → Option String

-- What the schemas take from JavaScript: the integer that `Number` makes of a text, if it is one, and
-- whether a text is a URL.
pub record Reading : Type 0 where
  pub integer : String → Option ℤ
  pub is_url : String → Bool

-- `z.string().min(1)`
abbrev pub required_text : Option String → Option String
required_text none = none
required_text (some t) = if str_eq t "" then none else some t

abbrev pub positive : Option ℤ → Option ℕ
positive none = none
positive (some (pos n)) = if ltb 0 n then some n else none
positive (some (negsuc n)) = none

-- `z.coerce.number().int().positive().default(…)`
abbrev pub positive_or : Reading → ℕ → Option String → Option ℕ
positive_or z default none = some default
positive_or z default (some t) = positive (z.integer t)

-- `z.string().url().default(…)`
abbrev pub url_or : Reading → String → Option String → Option String
url_or z default none = some default
url_or z default (some t) = if z.is_url t then some t else none

-- `z.enum(…)`
abbrev pub one_of : List String → Option String → Option String
one_of texts none = none
one_of texts (some t) = if any (λ x. str_eq x t) texts then some t else none

-- The name of a variable, unless it was read.
abbrev pub issue {ℓ} : {A : Type ℓ} → String → Option A → List String
issue name none = name ∷ []
issue name (some a) = []

-- packages/config/src/env.ts
pub record Env : Type 0 where
  pub node_env : String
  pub log_level : String

abbrev pub env_of : Option String → Option String → Result (List String) Env
env_of (some node_env) (some log_level) = ok (record { node_env = node_env; log_level = log_level })
env_of node_env log_level = err (issue "NODE_ENV" node_env ++ issue "LOG_LEVEL" log_level)

abbrev pub level_or_info : Option String → Option String
level_or_info none = some "info"
level_or_info (some t) = one_of ("debug" ∷ "info" ∷ "warn" ∷ "error" ∷ []) (some t)

unfoldable pub load_env : Environment → Result (List String) Env
load_env source =
    env_of (one_of ("development" ∷ "test" ∷ "production" ∷ []) (source "NODE_ENV"))
      (level_or_info (source "LOG_LEVEL"))

-- apps/workflow-service/src/config/config.module.ts
pub record WorkflowConfig : Type 0 where
  pub database_url : String
  pub port : ℕ
  pub action_secret : String
  pub inventory_url : String

abbrev pub workflow_config :
    Option String → Option ℕ → Option String → Option String → Result (List String) WorkflowConfig
workflow_config (some d) (some p) (some s) (some u) =
    ok (record { database_url = d; port = p; action_secret = s; inventory_url = u })
workflow_config d p s u = err (
    issue "DATABASE_URL" d
    ++ (issue "PORT" p ++ (issue "ACTION_SECRET" s ++ issue "INVENTORY_URL" u)))

unfoldable pub load_workflow_config : Reading → Environment → Result (List String) WorkflowConfig
load_workflow_config z env =
    workflow_config (required_text (env "DATABASE_URL")) (positive_or z 3001 (env "PORT"))
      (required_text (env "ACTION_SECRET"))
      (url_or z "http://inventory-service:3002" (env "INVENTORY_URL"))

-- apps/inventory-service/src/config/config.module.ts
pub record InventoryConfig : Type 0 where
  pub database_url : String
  pub port : ℕ
  pub action_secret : String
  pub reservation_ttl_seconds : ℕ

abbrev pub inventory_config :
    Option String → Option ℕ → Option String → Option ℕ → Result (List String) InventoryConfig
inventory_config (some d) (some p) (some s) (some ttl) =
    ok (record { database_url = d; port = p; action_secret = s; reservation_ttl_seconds = ttl })
inventory_config d p s ttl = err (
    issue "DATABASE_URL" d
    ++ (issue "PORT" p ++ (issue "ACTION_SECRET" s ++ issue "RESERVATION_TTL_SECONDS" ttl)))

unfoldable pub load_inventory_config : Reading → Environment → Result (List String) InventoryConfig
load_inventory_config z env =
    inventory_config (required_text (env "DATABASE_URL")) (positive_or z 3002 (env "PORT"))
      (required_text (env "ACTION_SECRET")) (positive_or z 300 (env "RESERVATION_TTL_SECONDS"))
