-- ===== src/Quota.antt =====
-- crates/crewd-core/src/quota.rs. Times are in milliseconds. A `HashMap` is the list of its entries,
-- in no order that matters here; `entry(k).or_default()` is `window_of`, written back by `put`.
pub mod Window
pub mod Rate
mod Tests
use mcp_crewd_rs.Base.{
  ℕ, ◌+◌, ◌-◌, String, Bool, ◌&&◌, Option, none, some, List, [], ◌∷◌, ◌++◌, length, replicate, ltb,
  leb, ◌==◌, if◌then◌else◌,
}
use mcp_crewd_rs.Error.{Result, ok, err, quota, reject_if}
use mcp_crewd_rs.Acl.{
  Capability, ask, broadcast, attach_files, wake, admin_registry, same_capability,
}

abbrev pub window_ms : ℕ
window_ms = 60000

pub record QuotaConfig : Type 0 where
  pub sender_per_min : ℕ
  pub ask_per_min : ℕ
  pub broadcast_per_min : ℕ
  pub attach_files_per_min : ℕ
  pub wake_per_min : ℕ
  pub admin_registry_per_min : ℕ
  pub pending_ask_cap : ℕ
  pub queue_depth : ℕ

abbrev pub default_config : QuotaConfig
default_config = record {
  sender_per_min = 60;
  ask_per_min = 20;
  broadcast_per_min = 5;
  attach_files_per_min = 10;
  wake_per_min = 10;
  admin_registry_per_min = 10;
  pending_ask_cap = 10;
  queue_depth = 1000;
}

pub record QuotaTracker : Type 0 where
  pub config : QuotaConfig
  pub per_sender : List (String × List ℕ)
  pub per_capability : List ((String × Capability) × List ℕ)

abbrev pub new : QuotaConfig → QuotaTracker
new config = record { config = config; per_sender = []; per_capability = [] }

-- The oldest stamp stands first. `saturating_sub` is the subtraction of ℕ.
unfoldable pub prune : ℕ → List ℕ → List ℕ
prune now [] = []
prune now (front ∷ window) =
    let rest = prune now window in if leb window_ms (now - front) then rest else front ∷ window

module _ {ℓ} {K : Type ℓ} (same : K → K → Bool) where
  unfoldable pub window_of : List (K × List ℕ) → K → List ℕ
  window_of [] key = []
  window_of ((k, w) ∷ rest) key = let found = window_of rest key in if same k key then w else found

  unfoldable pub put : List (K × List ℕ) → K → List ℕ → List (K × List ℕ)
  put [] key window = (key, window) ∷ []
  put ((k, w) ∷ rest) key window =
      let later = put rest key window in if same k key then (k, window) ∷ rest else (k, w) ∷ later

abbrev pub same_key : String × Capability → String × Capability → Bool
same_key (s, c) (t, d) = (s == t) && same_capability c d

unfoldable pub capability_ceiling : QuotaConfig → Capability → Option ℕ
capability_ceiling config ask = some config.ask_per_min
capability_ceiling config broadcast = some config.broadcast_per_min
capability_ceiling config attach_files = some config.attach_files_per_min
capability_ceiling config wake = some config.wake_per_min
capability_ceiling config admin_registry = some config.admin_registry_per_min
capability_ceiling config _ = none

unfoldable pub note_and_check_sender :
    QuotaTracker → String → ℕ → ℕ → Result (Unit {0}) × QuotaTracker
note_and_check_sender t from now fanout_units =
    let window = prune now (window_of ◌==◌ t.per_sender from) in
    let projected = length window + fanout_units in
    if ltb t.config.sender_per_min projected
    then (err quota, record t { per_sender = put ◌==◌ t.per_sender from window })
    else (
      ok tt,
      record t { per_sender = put ◌==◌ t.per_sender from (window ++ replicate fanout_units now) },
    )

abbrev check_ceiling :
    Option ℕ → QuotaTracker → String → Capability → ℕ → Result (Unit {0}) × QuotaTracker
check_ceiling none t from cap now = (ok tt, t)
check_ceiling (some ceiling) t from cap now =
    let window = prune now (window_of same_key t.per_capability (from, cap)) in
    if leb ceiling (length window)
    then (err quota, record t { per_capability = put same_key t.per_capability (from, cap) window })
    else (
      ok tt,
      record t { per_capability = put same_key t.per_capability (from, cap) (window ++ now ∷ []) },
    )

unfoldable pub note_and_check_capability :
    QuotaTracker → String → Capability → ℕ → Result (Unit {0}) × QuotaTracker
note_and_check_capability t from cap now =
    check_ceiling (capability_ceiling t.config cap) t from cap now

unfoldable pub check_queue_depth : QuotaTracker → ℕ → Result (Unit {0})
check_queue_depth t pending = reject_if (leb t.config.queue_depth pending) quota

pub check_pending_ask_cap : QuotaTracker → ℕ → Result (Unit {0})
check_pending_ask_cap t open_asks = reject_if (leb t.config.pending_ask_cap open_asks) quota
