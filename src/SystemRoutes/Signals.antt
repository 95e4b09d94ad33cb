-- ===== src/SystemRoutes/Signals.antt =====
-- The routes of Controller/app/main.py on /system that any caller may use.
use mendix_for_snowflake.Prelude.{
  ℕ, Bool, true, false, not, ◌&&◌, Option, none, some, is_some, List, Text, Dict, lookup, ltb, map,
  if◌then◌else◌,
}
use mendix_for_snowflake.EgressWatch.{Store, is_acknowledged}
use mendix_for_snowflake.Requests.{eai_slot_keys}
use mendix_for_snowflake.SystemRoutes.{
  Platform, is_privileged, Days, left, overdue, days_remaining, days_until,
}

-- A slot of `get_external_access_slots`, without its label.
pub record Slot : Type 0 where
  pub key : Text
  pub bound : Bool
  pub integration_name : Option Text

unfoldable pub slot_of : Bool → Dict Text → Text → Slot
slot_of privileged bound_eai_slots key = record {
  key = key;
  bound = is_some (lookup key bound_eai_slots);
  integration_name = if privileged then lookup key bound_eai_slots else none;
}

-- `get_external_access_slots`, which any caller may read
unfoldable pub get_external_access_slots : Platform → List Text → List Slot
unfolding slot_of
get_external_access_slots p roles =
    map (slot_of (is_privileged p roles) p.bound_eai_slots) eai_slot_keys

-- `WARNING_THRESHOLD_DAYS`
abbrev pub warning_threshold_days : ℕ
warning_threshold_days = 14

unfoldable pub is_near : Days → Bool
is_near (left days) = ltb days warning_threshold_days
is_near (overdue days) = true

-- `get_egress_warning`, which any caller may read: whether to warn, and the days that are left.
unfoldable pub get_egress_warning : ℕ → Store → Bool × Option Days
unfolding days_until is_near
get_egress_warning now store = elim store.min_expiry_at [
  | none ↦ (false, none)
  | some expiry ↦ (
    is_near (days_remaining now expiry) && not (is_acknowledged expiry store.ack_through),
    some (days_remaining now expiry),
  )
]
