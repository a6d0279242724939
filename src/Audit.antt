-- ===== src/Audit.antt =====
-- src/core/audit.js: the append-only audit trail. `redact` masks secrets by the names of keys, of
-- which the snapshots of the model have none, and serialising a snapshot loses nothing.
pub mod Trail
use eco_green_zoho_migration.Base.{
  ℕ, Text, String, text, Bool, true, Option, none, some, or_empty, truthy, not,
}
use eco_green_zoho_migration.Errors.{Role, missing_correlation_id, type_error}
use eco_green_zoho_migration.Store.{
  Action, modify, throw_if, ◌>>◌, append_row, AuditEvent, Snapshot, nothing, EntityId,
}

-- The `ctx` that every operation is given: who acts, in which role, and the reading of its clock.
pub record Context : Type 0 where
  pub correlation_id : Option Text
  pub actor : Option Text
  pub actor_role : Option Role
  pub now : Text

-- The argument of `emit`, with its defaults.
pub record Entry : Type 0 where
  pub actor : Option Text
  pub actor_role : Option Role
  pub action : Text
  pub entity_type : Text
  pub entity_id : Option EntityId
  pub before : Snapshot
  pub after : Snapshot
  pub reason : Option Text
  pub allowed : Bool
  pub branch_code : Option Text
  pub period : Option Text
  pub batch_id : Option Text

abbrev pub entry : Option Text → String → String → EntityId → Entry
entry actor action entity_type entity_id = record {
  actor = actor;
  actor_role = none;
  action = text action;
  entity_type = text entity_type;
  entity_id = some entity_id;
  before = nothing;
  after = nothing;
  reason = none;
  allowed = true;
  branch_code = none;
  period = none;
  batch_id = none;
}

unfoldable pub event_of : Context → Entry → ℕ → AuditEvent
event_of ctx e id = record {
  id = id;
  actor = or_empty e.actor;
  actor_role = e.actor_role;
  action = e.action;
  entity_type = e.entity_type;
  entity_id = e.entity_id;
  before = e.before;
  after = e.after;
  reason = e.reason;
  allowed = e.allowed;
  correlation_id = or_empty ctx.correlation_id;
  branch_code = e.branch_code;
  period = e.period;
  batch_id = e.batch_id;
  created_at = ctx.now;
}

-- Refuses an event without a correlation id or an actor; else adds one row, and changes no other.
unfoldable pub emit : Context → Entry → Action (Unit {0})
unfolding event_of
emit ctx e = do
  throw_if (not (truthy ctx.correlation_id)) missing_correlation_id
  throw_if (not (truthy e.actor)) type_error
  throw_if (not (truthy (some e.action))) type_error
  throw_if (not (truthy (some e.entity_type))) type_error
  modify λ s. record s { audit_events = append_row (event_of ctx e) s.audit_events }
