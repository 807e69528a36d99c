-- ===== src/Keystore/Grows.antt =====
-- `advance_counter`, `advance_commit_epoch`, `advance_treasury_config_version` and `record_audit` of
-- agent_keystore.rs: a body before and after one of them.
use d_hsm.Prelude.{
  ℕ, ◌+◌, ◌≤◌, ◌≡◌, refl, sym, ap, ◌∙◌, subst, List, [], ◌++◌, append_assoc, append-nil, Bool, true,
  false, Option, none, some, arith, inl, inr,
}
use d_hsm.Keystore.Types.{
  KeystoreBody, KeystoreConfig, KeyEntry, CounterEntry, AuditRing, AuditAppend, ok, >>=-eq-ok,
  ok_inv,
}
use d_hsm.Keystore.Counter.{RowKey, find_row, row_key, advance_counter}
use d_hsm.Keystore.Counter.Forward.{
  highest, highest_of, Advanced, advance_counter-Advanced, same_or_apart,
}
use d_hsm.Keystore.Epoch.{
  advance_commit_epoch, advance_treasury_config_version, checked_succ, next_structural, bumped,
}
use d_hsm.Keystore.Audit.{append_ring, record_audit}

-- From `x` to `y`, with the epoch moved on by `n`.
pub record Grows (n : ℕ) (x y : KeystoreBody) : Type 0 where
  pub epoch : y.freshness_epoch ≡ x.freshness_epoch + n
  pub structural : x.structural_version ≤ y.structural_version
  pub identity : y.config ≡ record x.config {
    monotonic_treasury_config_version = y.config.monotonic_treasury_config_version;
  }
  pub version :
      x.config.monotonic_treasury_config_version ≤ y.config.monotonic_treasury_config_version
  pub recovery : x.strict_recovery_counter ≤ y.strict_recovery_counter
  pub keys : (added : List KeyEntry) × (y.entries ≡ x.entries ++ added)
  pub counters : (k : RowKey) → highest k x.counters ≤ highest k y.counters
  pub audit_end : x.audit.next_seq ≤ y.audit.next_seq

pub Grows-refl : (x : KeystoreBody) → Grows 0 x x
Grows-refl x = record {
  epoch = omega arith;
  structural = omega arith;
  identity = refl;
  version = omega arith;
  recovery = omega arith;
  keys = ([], sym (append-nil x.entries));
  counters = λ k. omega arith;
  audit_end = omega arith;
}

rebased :
    (a b d : KeystoreConfig)
    → b ≡ record a { monotonic_treasury_config_version = b.monotonic_treasury_config_version }
    → d ≡ record b { monotonic_treasury_config_version = d.monotonic_treasury_config_version }
    → d ≡ record a { monotonic_treasury_config_version = d.monotonic_treasury_config_version }
rebased a b d h k =
    let version = d.monotonic_treasury_config_version in
    let stamp : KeystoreConfig → KeystoreConfig =
      λ x. record x { monotonic_treasury_config_version = version } in
    k ∙ ap stamp h

pub Grows-trans : (n m : ℕ) (x y z : KeystoreBody) → Grows n x y → Grows m y z → Grows (n + m) x z
Grows-trans n m x y z h k =
    let (first, e) = h.keys in
    let (second, f) = k.keys in
    record {
      epoch = omega (arith, h.epoch, k.epoch);
      structural = omega (arith, h.structural, k.structural);
      identity = rebased x.config y.config z.config h.identity k.identity;
      version = omega (arith, h.version, k.version);
      recovery = omega (arith, h.recovery, k.recovery);
      keys = (first ++ second, f ∙ ap (λ l. l ++ second) e ∙ append_assoc x.entries first second);
      counters = λ r. omega (arith, h.counters r, k.counters r);
      audit_end = omega (arith, h.audit_end, k.audit_end);
    }

-- No counter falls in an accepted advance.
counters_kept :
    (k : RowKey) (n : ℕ) (rows rows' : List CounterEntry)
    → Advanced k n rows rows'
    → (j : RowKey) → highest j rows ≤ highest j rows'
unfolding highest
counters_kept k n rows rows' adv j = elim (same_or_apart k j) [
  | inl same ↦ subst (λ i. highest i rows ≤ highest i rows') same (below (find_row k rows) refl)
  | inr apart ↦ omega (arith, ap highest_of (adv.others j apart))
]
  where
    below : (o : Option CounterEntry) → find_row k rows ≡ o → highest k rows ≤ highest k rows'
    below none e = omega (arith, ap highest_of e)
    below (some c) e = omega (arith, ap highest_of e, adv.forward c e, adv.now)

pub advance_counter-Grows :
    (x y : KeystoreBody) (authority : List ℕ) (scope_class : ℕ) (scope_target : List ℕ) (n : ℕ)
    → advance_counter x authority scope_class scope_target n ≡ ok y
    → Grows 0 x y
advance_counter-Grows x y authority scope_class scope_target n h =
    let (adv, kept) = advance_counter-Advanced x authority scope_class scope_target n y h in
    let forward =
      counters_kept (row_key x authority scope_class scope_target) n x.counters y.counters adv in
    subst (Grows 0 x) (sym kept) (record {
      epoch = omega arith;
      structural = omega arith;
      identity = refl;
      version = omega arith;
      recovery = omega arith;
      keys = ([], sym (append-nil x.entries));
      counters = forward;
      audit_end = omega arith;
    })

pub checked_succ-ok : (n k : ℕ) → checked_succ n ≡ ok k → k ≡ n + 1
checked_succ-ok n k h = ground (arith, h)

next_structural-ok : (b : Bool) (n k : ℕ) → next_structural b n ≡ ok k → k ≡ bumped b n
next_structural-ok true n k h = checked_succ-ok n k h
next_structural-ok false n k h = sym (ok_inv h)

bumped_le : (b : Bool) (n : ℕ) → n ≤ bumped b n
bumped_le true n = omega arith
bumped_le false n = omega arith

pub advance_commit_epoch-Grows :
    (x y : KeystoreBody) (structural : Bool)
    → advance_commit_epoch x structural ≡ ok y
    → Grows 1 x y
unfolding advance_commit_epoch
advance_commit_epoch-Grows x y structural h =
    let (epoch, e0, h0) = >>=-eq-ok (checked_succ x.freshness_epoch) _ h in
    let (version, e1, h1) = >>=-eq-ok (next_structural structural x.structural_version) _ h0 in
    let same = next_structural-ok structural x.structural_version version e1 in
    subst (Grows 1 x) (ok_inv h1) (record {
      epoch = checked_succ-ok x.freshness_epoch epoch e0;
      structural = omega (arith, same, bumped_le structural x.structural_version);
      identity = refl;
      version = omega arith;
      recovery = omega arith;
      keys = ([], sym (append-nil x.entries));
      counters = λ k. omega arith;
      audit_end = omega arith;
    })

pub advance_treasury_config_version-Grows :
    (x y : KeystoreBody) → advance_treasury_config_version x ≡ ok y → Grows 0 x y
unfolding advance_treasury_config_version
advance_treasury_config_version-Grows x y h =
    let (next, e0, h0) = >>=-eq-ok (checked_succ x.config.monotonic_treasury_config_version) _ h in
    subst (Grows 0 x) (ok_inv h0) (record {
      epoch = omega arith;
      structural = omega arith;
      identity = refl;
      version = omega (arith, checked_succ-ok x.config.monotonic_treasury_config_version next e0);
      recovery = omega arith;
      keys = ([], sym (append-nil x.entries));
      counters = λ k. omega arith;
      audit_end = omega arith;
    })

append_ring_end :
    (r r' : AuditRing) (f : AuditAppend) → append_ring r f ≡ ok r' → r'.next_seq ≡ r.next_seq + 1
unfolding append_ring
append_ring_end r r' f h = ground (arith, h)

pub record_audit-Grows :
    (x y : KeystoreBody) (f : AuditAppend) → record_audit x f ≡ ok y → Grows 0 x y
unfolding record_audit
record_audit-Grows x y f h =
    let (ring, e0, h0) = >>=-eq-ok (append_ring x.audit f) _ h in
    subst (Grows 0 x) (ok_inv h0) (record {
      epoch = omega arith;
      structural = omega arith;
      identity = refl;
      version = omega arith;
      recovery = omega arith;
      keys = ([], sym (append-nil x.entries));
      counters = λ k. omega arith;
      audit_end = omega (arith, append_ring_end x.audit ring f e0);
    })
