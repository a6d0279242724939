-- ===== src/Audit/Trail.antt =====
-- What `emit` does to the store: it appends at most one event and changes nothing else.
use eco_green_zoho_migration.Base.{◌≡◌, Bool, true, false, some, ◌&&◌, truthy, arith}
use eco_green_zoho_migration.Errors.{ok}
use eco_green_zoho_migration.Store.{Store, append_row, calls}
use eco_green_zoho_migration.Audit.{Context, Entry, event_of, emit}

pub emit_only :
    (ctx : Context) (e : Entry) (s : Store)
    → (emit ctx e s).1 ≡ record s { audit_events = (emit ctx e s).1.audit_events }
unfolding emit calls
emit_only ctx e s = ground arith

-- The event has all that `emit` asks for.
abbrev pub is_complete : Context → Entry → Bool
is_complete ctx e =
    truthy ctx.correlation_id
    && truthy e.actor
    && truthy (some e.action)
    && truthy (some e.entity_type)

pub emit_complete :
    (ctx : Context) (e : Entry) (s : Store)
    → is_complete ctx e ≡ true
    → emit ctx e s ≡ (ok tt, record s { audit_events = append_row (event_of ctx e) s.audit_events })
unfolding emit calls
emit_complete ctx e s h = ground arith

pub emit_incomplete :
    (ctx : Context) (e : Entry) (s : Store) → is_complete ctx e ≡ false → (emit ctx e s).1 ≡ s
unfolding emit calls
emit_incomplete ctx e s h = ground arith
