-- ===== src/Capability/Granted.antt =====
-- `verify_capability_extract` of agent_capability.rs, and `advance_counter` of agent_keystore.rs
-- after it.
use d_hsm.Prelude.{
  ℕ, ◌+◌, ◌≡◌, ◌≢◌, refl, sym, ap, ◌∙◌, subst, List, ◌++◌, Bool, true, false, ◌==◌, ==_iff, Option,
  none, some, arith,
}
use d_hsm.Prelude.Bytes.{bytes_eq, bytes_eq_sound}
use d_hsm.Prelude.Attempt.{done, >>=-eq-done, ensure-done, done_inv}
use d_hsm.Crypto.{Crypto, IsCtEq}
use d_hsm.Cbor.Value.{Entries, map_of}
use d_hsm.Cbor.Canonical.{encode}
use d_hsm.Keystore.Types.{KeystoreConfig, KeystoreBody, CounterEntry, ok}
use d_hsm.Keystore.Counter.{RowKey, find_row, row_key, advance_counter}
use d_hsm.Keystore.Counter.Forward.{highest, highest_of, advance_counter-Advanced}
use d_hsm.Capability.Parse.{Capability, malformed, capability_rejected, parse_capability}
use d_hsm.Capability.Parsed.{Parsed, parse_capability-Parsed}
use d_hsm.Capability.Tier.{IsTier, tier_ok-IsTier}
use d_hsm.Capability.Written.{signed_map, signed_preimage-encode}
use d_hsm.Capability.Verify.{
  VerifiedCapability, cap_domain, cap_format_version, signed_preimage, tier_ok, authority_of,
  sealed_scope_id, row_of, counter_or_zero, next_counter, verify_capability_extract,
}

-- What a granted capability is.
pub record Granted (c : Crypto) (m : Entries) (opcode : ℕ) (request_id : List ℕ)
    (config : KeystoreConfig) (counters : List CounterEntry) (v : VerifiedCapability) : Type 0 where
  pub cap : Capability
  pub parsed : parse_capability m ≡ done cap
  pub fields : Parsed m cap
  pub format : cap.cap_format_version ≡ 2
  pub tier : IsTier opcode cap.treasury_sub_op cap.is_recovery
  pub signed :
      c.verify_strict v.authority (cap_domain ++ encode (map_of (signed_map cap))) cap.signature
      ≡ true
  pub by_admin : cap.is_recovery ≡ false → v.authority ≡ config.admin_authority_pk
  pub by_recovery : cap.is_recovery ≡ true → v.authority ≡ config.recovery_authority_pk
  pub for_opcode : cap.command_opcode ≡ opcode
  pub for_request : cap.request_id ≡ request_id
  pub chain : cap.chain_id ≡ config.twod_chain_id
  pub environment : cap.environment_identifier ≡ config.environment_identifier
  pub enclave : cap.scope_class ≡ 0 → cap.scope_identity ≡ config.enclave_scope_id
  pub fleet : cap.scope_class ≢ 0 → cap.scope_identity ≡ config.fleet_scope_id
  pub contiguous :
      cap.counter
      ≡ highest
          (record {
            authority = v.authority;
            environment_identifier = cap.environment_identifier;
            scope_class = cap.scope_class;
            scope_target = cap.scope_target;
          })
          counters
        + 1
  pub scope_class : v.scope_class ≡ cap.scope_class
  pub scope_target : v.scope_target ≡ cap.scope_target
  pub counter : v.counter ≡ cap.counter
  pub binding : v.payload_binding ≡ cap.payload_binding
  pub purpose : v.key_purpose ≡ cap.key_purpose
  pub sub_op : v.treasury_sub_op ≡ cap.treasury_sub_op

scope_of :
    (config : KeystoreConfig) (cap : Capability)
    → cap.scope_identity ≡ sealed_scope_id config cap
    → (cap.scope_class ≡ 0 → cap.scope_identity ≡ config.enclave_scope_id)
      × (cap.scope_class ≢ 0 → cap.scope_identity ≡ config.fleet_scope_id)
scope_of config cap h =
    (λ zero_class. h ∙ rw zero_class refl, λ other. h ∙ rw (class_test cap.scope_class other) refl)
  where
    class_test : (n : ℕ) → n ≢ 0 → (n == 0) ≡ false
    class_test n other = ground (arith, other)

authority_by_admin :
    (config : KeystoreConfig) (cap : Capability)
    → cap.is_recovery ≡ false
    → authority_of config cap ≡ config.admin_authority_pk
authority_by_admin config cap h = rw h refl

authority_by_recovery :
    (config : KeystoreConfig) (cap : Capability)
    → cap.is_recovery ≡ true
    → authority_of config cap ≡ config.recovery_authority_pk
authority_by_recovery config cap h = rw h refl

-- The row of a capability under a key.
abbrev row_under : List ℕ → Capability → RowKey
row_under key cap = record {
  authority = key;
  environment_identifier = cap.environment_identifier;
  scope_class = cap.scope_class;
  scope_target = cap.scope_target;
}

next_counter-done : (n k : ℕ) → next_counter n ≡ done k → k ≡ n + 1
next_counter-done n k h = ground (arith, h)

highest-find_row :
    (k : RowKey) (rows : List CounterEntry) → highest k rows ≡ counter_or_zero (find_row k rows)
unfolding highest
highest-find_row k rows = go (find_row k rows)
  where
    go : (o : Option CounterEntry) → highest_of o ≡ counter_or_zero o
    go none = refl
    go (some r) = refl

-- Where ct_eq is equality, a capability is granted only when it parses as one of format 2 whose fields
-- are the values at their keys, its tier is that of the requested opcode and sub-operation, the sealed
-- key of that tier signed the domain followed by the canonical encoding of every field, its opcode,
-- request, chain, environment and scope identity are the requested and the sealed ones, its counter is
-- one above the highest of its row under that key, and what is returned is what it says.
pub verify_capability_extract_sound :
    (c : Crypto) (m : Entries) (opcode : ℕ) (request_id : List ℕ) (config : KeystoreConfig)
    (counters : List CounterEntry) (v : VerifiedCapability)
    → IsCtEq c
    → verify_capability_extract c m opcode request_id config counters ≡ done v
    → Granted c m opcode request_id config counters v
unfolding verify_capability_extract
verify_capability_extract_sound c m opcode request_id config counters v ct h =
    let (cap, e0, h0) = >>=-eq-done (parse_capability m) _ h in
    let auth = authority_of config cap in
    let (version, h1) = ensure-done (cap.cap_format_version == cap_format_version) malformed _ h0 in
    let (tier, h2) = ensure-done (tier_ok cap) capability_rejected _ h1 in
    let (key, h3) = ensure-done (c.key_ok auth) capability_rejected _ h2 in
    let (signed, h4) =
      ensure-done (c.verify_strict auth (signed_preimage cap) cap.signature) capability_rejected _
        h3 in
    let (op, h5) = ensure-done (cap.command_opcode == opcode) capability_rejected _ h4 in
    let (req, h6) = ensure-done (bytes_eq cap.request_id request_id) capability_rejected _ h5 in
    let (chain, h7) = ensure-done (cap.chain_id == config.twod_chain_id) capability_rejected _ h6 in
    let (env, h8) =
      ensure-done (bytes_eq cap.environment_identifier config.environment_identifier)
        capability_rejected _ h7 in
    let (scope, h9) =
      ensure-done (c.ct_eq cap.scope_identity (sealed_scope_id config cap)) capability_rejected _
        h8 in
    let (next, e10, h10) =
      >>=-eq-done (next_counter (counter_or_zero (find_row (row_of config cap) counters))) _ h9 in
    let (same, h11) = ensure-done (cap.counter == next) capability_rejected _ h10 in
    let from = sym (done_inv h11) in
    let for_opcode = (==_iff cap.command_opcode opcode).0 op in
    let authority : v.authority ≡ auth = ap (λ r. r.authority) from in
    let (enclave, fleet) =
      scope_of config cap ((ct.exact cap.scope_identity (sealed_scope_id config cap)).0 scope) in
    record {
      cap = cap;
      parsed = e0;
      fields = parse_capability-Parsed m cap e0;
      format = (==_iff cap.cap_format_version 2).0 version;
      tier =
          subst (λ o. IsTier o cap.treasury_sub_op cap.is_recovery) for_opcode
            (tier_ok-IsTier cap tier);
      signed =
          subst
            (λ k.
              c.verify_strict k (cap_domain ++ encode (map_of (signed_map cap))) cap.signature
              ≡ true)
            (sym authority)
            (subst (λ l. c.verify_strict auth l cap.signature ≡ true) (signed_preimage-encode cap)
              signed);
      by_admin = λ e. authority ∙ authority_by_admin config cap e;
      by_recovery = λ e. authority ∙ authority_by_recovery config cap e;
      for_opcode = for_opcode;
      for_request = bytes_eq_sound cap.request_id request_id req;
      chain = (==_iff cap.chain_id config.twod_chain_id).0 chain;
      environment = bytes_eq_sound cap.environment_identifier config.environment_identifier env;
      enclave = enclave;
      fleet = fleet;
      contiguous =
          (==_iff cap.counter next).0 same
          ∙ next_counter-done _ next e10
          ∙ ap (λ n. n + 1) (sym (highest-find_row (row_of config cap) counters))
          ∙ ap (λ k. highest (row_under k cap) counters + 1) (sym authority);
      scope_class = ap (λ r. r.scope_class) from;
      scope_target = ap (λ r. r.scope_target) from;
      counter = ap (λ r. r.counter) from;
      binding = ap (λ r. r.payload_binding) from;
      purpose = ap (λ r. r.key_purpose) from;
      sub_op = ap (λ r. r.treasury_sub_op) from;
    }

authority_same :
    (config : KeystoreConfig) (a b : List ℕ) (r : Bool)
    → (r ≡ false → a ≡ config.admin_authority_pk)
    → (r ≡ true → a ≡ config.recovery_authority_pk)
    → (r ≡ false → b ≡ config.admin_authority_pk)
    → (r ≡ true → b ≡ config.recovery_authority_pk)
    → a ≡ b
authority_same config a b true ha ra hb rb = ra refl ∙ sym (rb refl)
authority_same config a b false ha ra hb rb = ha refl ∙ sym (hb refl)

-- Where `ct_eq` is equality, a capability that was granted and whose counter was then recorded is
-- not granted again for the request.
pub verify_capability_extract_once :
    (c : Crypto) (m : Entries) (opcode : ℕ) (request_id : List ℕ) (body body' : KeystoreBody)
    (v w : VerifiedCapability)
    → IsCtEq c
    → verify_capability_extract c m opcode request_id body.config body.counters ≡ done v
    → advance_counter body v.authority v.scope_class v.scope_target v.counter ≡ ok body'
    → verify_capability_extract c m opcode request_id body'.config body'.counters ≢ done w
verify_capability_extract_once c m opcode request_id body body' v w ct first moved second =
    let g =
      verify_capability_extract_sound c m opcode request_id body.config body.counters v ct first in
    let g' =
      verify_capability_extract_sound c m opcode request_id body'.config body'.counters w ct
        second in
    let (adv, kept) =
      advance_counter-Advanced body v.authority v.scope_class v.scope_target v.counter body'
        moved in
    let config : body'.config ≡ body.config = ap (λ b. b.config) kept in
    let cap : g'.cap ≡ g.cap = done_inv (sym g'.parsed ∙ g.parsed) in
    let auth : g'.cap.is_recovery ≡ g.cap.is_recovery = ap (λ a. a.is_recovery) cap in
    let same_key : w.authority ≡ v.authority =
      authority_same body.config w.authority v.authority g.cap.is_recovery
        (λ e. g'.by_admin (auth ∙ e) ∙ ap (λ k. k.admin_authority_pk) config)
        (λ e. g'.by_recovery (auth ∙ e) ∙ ap (λ k. k.recovery_authority_pk) config) g.by_admin
        g.by_recovery in
    let key : row_key body v.authority v.scope_class v.scope_target ≡ row_under w.authority g'.cap =
      rw (same_key, g.scope_class, g.scope_target, sym g.environment, cap) refl in
    let now : highest (row_under w.authority g'.cap) body'.counters ≡ v.counter =
      subst (λ k. highest k body'.counters ≡ v.counter) key adv.now in
    omega (arith, g'.contiguous, now, g.counter, ap (λ a. a.counter) cap)
