-- ===== src/AdminUi/Infrastructure.antt =====
-- The two forms of Admin UI/app/pages/7_Infrastructure.py: what they show at first, and what they send.
pub mod Untouched
use mendix_for_snowflake.Prelude.{
  ℕ, zero, suc, Bool, true, false, Option, none, some, List, [], ◌∷◌, Text, text, strip, truthy,
  split, join, map, filter, ltb, if◌then◌else◌,
}
use mendix_for_snowflake.SystemRoutes.{Pool}

-- `int(value or d)`
unfoldable pub or_default : ℕ → Option ℕ → ℕ
or_default d none = d
or_default d (some zero) = d
or_default d (some (suc n)) = suc n

pub record PoolForm : Type 0 where
  pub min_nodes : ℕ
  pub max_nodes : ℕ
  pub auto_suspend : ℕ

-- The form of the compute pool before the operator touches it
unfoldable pub pool_form : Pool → PoolForm
unfolding or_default
pool_form pool = record {
  min_nodes = or_default 1 pool.min_nodes;
  max_nodes = or_default 1 pool.max_nodes;
  auto_suspend = or_default 3600 pool.auto_suspend_secs;
}

-- What `Save` sends, if anything
unfoldable pub submit_pool : PoolForm → Option PoolForm
submit_pool form = if ltb form.max_nodes form.min_nodes then none else some form

-- `", ".join(recipients)`, which the form shows
unfoldable pub recipients_text : List Text → Text
recipients_text recipients = join (text ", ") recipients

-- `[r.strip() for r in text.split(",") if r.strip()]`
unfoldable pub recipients_of : Text → List Text
recipients_of shown = map strip (filter (λ r. truthy (strip r)) (split b',' shown))
