-- ===== src/Keystore/Audit.antt =====
-- `record_audit` and `advance_export_high_water` of agent_keystore.rs.
pub mod Ring
pub mod Full
use d_hsm.Prelude.{
  ℕ, ◌+◌, ◌-◌, ◌^◌, List, [], ◌∷◌, ◌++◌, ◌&&◌, leb, ltb, ◌==◌, if◌then◌else◌, length, drop,
}
use d_hsm.Keystore.Types.{
  KeystoreBody, AuditRing, AuditRecord, AuditAppend, Result, ok, err, audit_backpressure,
  monotonic_overflow, ◌>>=◌,
}

abbrev pub audit_record : AuditRing → AuditAppend → AuditRecord
audit_record r f = record {
  seq = r.next_seq;
  op = f.op;
  authority = f.authority;
  counter = f.counter;
  config_version = f.config_version;
  scope_class = f.scope_class;
  scope_target = f.scope_target;
  request_id = f.request_id;
}

-- `saturating_sub` is the subtraction of ℕ.
abbrev pub live_unexported : AuditRing → ℕ
live_unexported r = r.next_seq - 1 - r.last_exported_seq

-- The ring after an append: it grows until it is full, then the oldest record makes room.
abbrev pub pushed : AuditRing → AuditRecord → List AuditRecord
pushed r a =
    if ltb (length r.records) r.capacity
    then r.records ++ (a ∷ [])
    else drop 1 r.records ++ (a ∷ [])

unfoldable pub append_ring : AuditRing → AuditAppend → Result AuditRing
append_ring r f =
    if r.capacity == 0
    then err audit_backpressure
    else if leb r.capacity (length r.records) && leb r.capacity (live_unexported r)
    then err audit_backpressure
    else if leb (2 ^ 64) (r.next_seq + 1)
    then err monotonic_overflow
    else ok (record r { records = pushed r (audit_record r f); next_seq = r.next_seq + 1 })

unfoldable pub record_audit : KeystoreBody → AuditAppend → Result KeystoreBody
unfolding append_ring
record_audit body f = do ring ← append_ring body.audit f; ok (record body { audit = ring })

unfoldable pub export_ring : AuditRing → AuditRing
export_ring r =
    let target = r.next_seq - 1 in
    if ltb r.last_exported_seq target then record r { last_exported_seq = target } else r

unfoldable pub advance_export_high_water : KeystoreBody → Result KeystoreBody
unfolding export_ring
advance_export_high_water body = ok (record body { audit = export_ring body.audit })
