-- ===== src/Config/Secured.antt =====
-- What a service that starts can rely on, apps/*/src/config/config.module.ts, and whom its guard,
-- apps/*/src/common/hasura-auth.guard.ts, lets in.
use mathlib.Core.Option.{some_inj}
use ecommerce_orderflow.Prelude.{
  ℕ, ◌<◌, String, str_eq, eq_iff, ◌≡◌, ◌≢◌, ◌↔◌, sym, ap, ◌∙◌, subst, true, Option, none, some, ℤ,
  pos, negsuc, ltb, arith, Bool-cases, inl, inr,
}
use ecommerce_orderflow.Runtime.{ok}
use ecommerce_orderflow.Orders.Guards.{Crypto, can_activate}
use ecommerce_orderflow.Orders.Guards.Secret.{can_activate_iff}
use ecommerce_orderflow.Config.{
  Environment, Reading, required_text, positive, positive_or, WorkflowConfig, workflow_config,
  load_workflow_config, InventoryConfig, inventory_config, load_inventory_config,
}

-- A text that was read is the variable's, and not empty.
required_text_lem :
    (t : Option String) (s : String) → required_text t ≡ some s → (t ≡ some s) × (s ≢ "")
required_text_lem none s e = absurd (cc)
required_text_lem (some t) s e = elim (Bool-cases (str_eq t "")) [
  | inl h ↦ let k = (rw h at e) in absurd (cc)
  | inr h ↦
      let k = some_inj.0 (rw h at e) in
      (ap some k, λ q. let f = (eq_iff t "").1 (k ∙ q) in absurd (cc))
]

positive_lem : (z : Option ℤ) (n : ℕ) → positive z ≡ some n → 0 < n
positive_lem none n e = absurd (cc)
positive_lem (some (negsuc m)) n e = absurd (cc)
positive_lem (some (pos m)) n e = elim (Bool-cases (ltb 0 m)) [
  | inl h ↦ let k = some_inj.0 (rw h at e) in ground (arith, h, k)
  | inr h ↦ let k = (rw h at e) in absurd (cc)
]

positive_or_lem :
    (z : Reading) (default : ℕ) (t : Option String) (n : ℕ)
    → 0 < default
    → positive_or z default t ≡ some n
    → 0 < n
positive_or_lem z default none n p e = subst (λ m. 0 < m) (some_inj.0 e) p
positive_or_lem z default (some t) n p e = positive_lem (z.integer t) n e

module _ (d : Option String) (p : Option ℕ) (s : Option String) where
  -- What a configuration of the order service was put together from.
  workflow_config_lem :
      (u : Option String) (c : WorkflowConfig)
      → workflow_config d p s u ≡ ok c
      → (p ≡ some c.port) × (s ≡ some c.action_secret)
  workflow_config_lem u c e = ground (arith, e)

  inventory_config_lem :
      (ttl : Option ℕ) (c : InventoryConfig)
      → inventory_config d p s ttl ≡ ok c
      → (p ≡ some c.port) × (s ≡ some c.action_secret) × (ttl ≡ some c.reservation_ttl_seconds)
  inventory_config_lem ttl c e = ground (arith, e)

-- The secret is the variable's.
abbrev pub LetsIn : Crypto → Option String → Option String → String → Type 0
LetsIn crypto header variable secret =
    (can_activate crypto secret header ≡ true) ↔ (header ≡ variable)

-- When both services have loaded their configurations, with one ACTION_SECRET in their environments, each lets
-- in exactly the requests that present it; the inventory service lets in those of the order service exactly
-- when fetch sends the secret as it stands, whatever fetch does to the value of a header; no port is 0, and a
-- reservation is held for at least a second. The conditions are that the encoding loses nothing and that
-- timingSafeEqual compares buffers of one length.
pub load_configs-secured :
    (crypto : Crypto)
    → ((s t : String) → crypto.utf8 s ≡ crypto.utf8 t → s ≡ t)
    → ((a b : crypto.Buffer)
        → crypto.length a ≡ crypto.length b
        → (crypto.timing_safe_equal a b ≡ true) ↔ (a ≡ b))
    → (z : Reading) (env env' : Environment) (c : WorkflowConfig) (d : InventoryConfig)
      (header : Option String) (fetched : String → Option String)
    → load_workflow_config z env ≡ ok c
    → load_inventory_config z env' ≡ ok d
    → env' "ACTION_SECRET" ≡ env "ACTION_SECRET"
    → LetsIn crypto header (env "ACTION_SECRET") c.action_secret
      × LetsIn crypto header (env "ACTION_SECRET") d.action_secret
      × ((can_activate crypto d.action_secret (fetched c.action_secret) ≡ true)
          ↔ (fetched c.action_secret ≡ some c.action_secret))
      × (0 < c.port)
      × (0 < d.port)
      × (0 < d.reservation_ttl_seconds)
unfolding load_workflow_config load_inventory_config
load_configs-secured crypto inj eq z env env' c d header fetched e e' same =
    let h = workflow_config_lem _ _ _ _ c e in
    let k = inventory_config_lem _ _ _ _ d e' in
    let s = required_text_lem (env "ACTION_SECRET") c.action_secret h.1 in
    let s' = required_text_lem (env' "ACTION_SECRET") d.action_secret k.1 in
    (
      subst (λ v. LetsIn crypto header v c.action_secret) (sym s.0)
          (can_activate_iff crypto inj eq c.action_secret header s.1),
      subst (λ v. LetsIn crypto header v d.action_secret) (sym s'.0 ∙ same)
          (can_activate_iff crypto inj eq d.action_secret header s'.1),
      subst (LetsIn crypto (fetched c.action_secret) (some c.action_secret))
          (some_inj.0 (sym s.0 ∙ sym same ∙ s'.0))
          (can_activate_iff crypto inj eq c.action_secret (fetched c.action_secret) s.1),
      positive_or_lem z 3001 (env "PORT") c.port (omega arith) h.0,
      positive_or_lem z 3002 (env' "PORT") d.port (omega arith) k.0,
      positive_or_lem z 300 (env' "RESERVATION_TTL_SECONDS") d.reservation_ttl_seconds (omega arith)
          k.2,
    )
