-- ===== src/Config/Tests.antt =====
-- Configurations from concrete environments.
use ecommerce_orderflow.Prelude.{
  ◌<◌, String, str_eq, eq_iff, ◌≡◌, ◌↔◌, refl, [], ◌∷◌, true, false, Option, none, some, pos,
  if◌then◌else◌,
}
use ecommerce_orderflow.Runtime.{ok, err}
use ecommerce_orderflow.Orders.Guards.{can_activate, matches_secret}
use ecommerce_orderflow.Orders.Api.Tests.{plain}
use ecommerce_orderflow.Config.{
  Environment, Reading, required_text, load_env, WorkflowConfig, load_workflow_config,
  InventoryConfig, load_inventory_config,
}
use ecommerce_orderflow.Config.Secured.{load_configs-secured}

-- One number is known, and every text is a URL.
abbrev reading : Reading
reading = record {
  integer = λ t. if str_eq t "60" then some (pos 60) else none;
  is_url = λ t. true;
}

abbrev shell : Environment
shell name =
    if str_eq name "ACTION_SECRET"
    then some "s3cret"
    else if str_eq name "DATABASE_URL"
    then some "postgres://db"
    else if str_eq name "RESERVATION_TTL_SECONDS"
    then some "60"
    else none

abbrev orders_config : WorkflowConfig
orders_config = record {
  database_url = "postgres://db";
  port = 3001;
  action_secret = "s3cret";
  inventory_url = "http://inventory-service:3002";
}

abbrev stock_config : InventoryConfig
stock_config = record {
  database_url = "postgres://db";
  port = 3002;
  action_secret = "s3cret";
  reservation_ttl_seconds = 60;
}

orders_loaded : load_workflow_config reading shell ≡ ok orders_config
unfolding load_workflow_config
orders_loaded = refl

stock_loaded : load_inventory_config reading shell ≡ ok stock_config
unfolding load_inventory_config
stock_loaded = refl

-- A bare shell: two variables have no default.
unset : load_inventory_config reading (λ name. none) ≡ err ("DATABASE_URL" ∷ "ACTION_SECRET" ∷ [])
unfolding load_inventory_config
unset = refl

unnamed_env : load_env shell ≡ err ("NODE_ENV" ∷ [])
unfolding load_env
unnamed_env = refl

abbrev guess : Option String
guess = some "guess"

-- A `fetch` that drops a line feed at the end of a header's value, for two values.
abbrev fetched : String → Option String
fetched t = if str_eq t "s3cret\n" then some "s3cret" else some t

-- With a line feed at its end the secret is a valid one, and the order service is refused.
line_feed_refused : can_activate plain "s3cret\n" (fetched "s3cret\n") ≡ false
unfolding can_activate matches_secret
line_feed_refused = refl

line_feed_read : required_text (some "s3cret\n") ≡ some "s3cret\n"
line_feed_read = refl

load_configs-secured_example :
    ((can_activate plain "s3cret" guess ≡ true) ↔ (guess ≡ some "s3cret"))
    × ((can_activate plain "s3cret" guess ≡ true) ↔ (guess ≡ some "s3cret"))
    × ((can_activate plain "s3cret" (fetched "s3cret") ≡ true) ↔ (fetched "s3cret" ≡ some "s3cret"))
    × (0 < 3001)
    × (0 < 3002)
    × (0 < 60)
load_configs-secured_example =
    load_configs-secured plain (λ s t e. e) (λ a b e. eq_iff a b) reading shell shell orders_config
      stock_config guess fetched orders_loaded stock_loaded refl
