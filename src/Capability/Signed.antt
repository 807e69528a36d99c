-- ===== src/Capability/Signed.antt =====
-- The signed bytes of a capability of agent_capability.rs.
use d_hsm.Prelude.{
  ℕ, ◌≡◌, refl, sym, ap, ◌∙◌, List, [], ◌∷◌, ◌++◌, append_assoc, Bool, true, false, Option, none,
  some, arith, length, drop, if◌then◌else◌,
}
use d_hsm.Prelude.Bytes.{IsU64}
use d_hsm.Cbor.Encode.{put_uint}
use d_hsm.Cbor.Cancel.{
  uint_cancel, key_uint_cancel, key_bytes_cancel, key_text_cancel, domain_cancel, last_bytes,
}
use d_hsm.Capability.Parse.{Capability}
use d_hsm.Capability.Verify.{cap_domain, pair_count, put_sub_op, signed_preimage}

abbrev pub SubOpWide : Option ℕ → Type 0
SubOpWide none = Unit
SubOpWide (some sub) = IsU64 sub

-- The numbers are `u64`s and the strings have `u64` lengths.
pub record CapabilityWide (f : Capability) : Type 0 where
  pub version_u64 : IsU64 f.cap_format_version
  pub opcode_u64 : IsU64 f.command_opcode
  pub sub_op_u64 : SubOpWide f.treasury_sub_op
  pub purpose_u64 : IsU64 f.key_purpose
  pub chain_u64 : IsU64 f.chain_id
  pub environment_u64 : IsU64 (length f.environment_identifier)
  pub class_u64 : IsU64 f.scope_class
  pub target_u64 : IsU64 (length f.scope_target)
  pub counter_u64 : IsU64 f.counter
  pub request_u64 : IsU64 (length f.request_id)
  pub binding_u64 : IsU64 (length f.payload_binding)
  pub identity_u64 : IsU64 (length f.scope_identity)

pair_count-IsU64 : (o : Option ℕ) → IsU64 (pair_count o)
pair_count-IsU64 none = omega arith
pair_count-IsU64 (some sub) = omega arith

sub_op_cancel :
    (o u : Option ℕ) (xs ys : List ℕ)
    → SubOpWide o
    → SubOpWide u
    → pair_count o ≡ pair_count u
    → put_sub_op o ++ xs ≡ put_sub_op u ++ ys
    → (o ≡ u) × (xs ≡ ys)
sub_op_cancel none none xs ys ho hu n e = (refl, e)
sub_op_cancel (some a) (some b) xs ys ho hu n e =
    let (sub, rest) = key_uint_cancel 3 a b xs ys (omega arith) ho hu (
      sym (append_assoc (put_uint 0 3) (put_uint 0 a) xs)
      ∙ e
      ∙ append_assoc (put_uint 0 3) (put_uint 0 b) ys) in
    (ap some sub, rest)
sub_op_cancel none (some b) xs ys ho hu n e = absurd (omega (arith, n))
sub_op_cancel (some a) none xs ys ho hu n e = absurd (omega (arith, n))

abbrev first : List ℕ → ℕ
first [] = 0
first (x ∷ xs) = x

flag_cancel :
    (a b : Bool) (xs ys : List ℕ)
    → ((if a then 0xf5 else 0xf4) ∷ []) ++ xs ≡ ((if b then 0xf5 else 0xf4) ∷ []) ++ ys
    → (a ≡ b) × (xs ≡ ys)
flag_cancel true true xs ys e = (refl, ap (drop 1) e)
flag_cancel false false xs ys e = (refl, ap (drop 1) e)
flag_cancel true false xs ys e = absurd (omega (arith, ap first e))
flag_cancel false true xs ys e = absurd (omega (arith, ap first e))

-- Two capabilities of `u64` numbers and lengths with the same signed bytes agree in every field but
-- the signature.
pub capability_preimage_injective :
    (f g : Capability)
    → CapabilityWide f
    → CapabilityWide g
    → signed_preimage f ≡ signed_preimage g
    → (f.cap_format_version ≡ g.cap_format_version)
      × (f.command_opcode ≡ g.command_opcode)
      × (f.treasury_sub_op ≡ g.treasury_sub_op)
      × (f.key_purpose ≡ g.key_purpose)
      × (f.chain_id ≡ g.chain_id)
      × (f.environment_identifier ≡ g.environment_identifier)
      × (f.scope_class ≡ g.scope_class)
      × (f.scope_target ≡ g.scope_target)
      × (f.counter ≡ g.counter)
      × (f.request_id ≡ g.request_id)
      × (f.payload_binding ≡ g.payload_binding)
      × (f.is_recovery ≡ g.is_recovery)
      × (f.scope_identity ≡ g.scope_identity)
unfolding signed_preimage
capability_preimage_injective f g hf hg e =
    let inner = domain_cancel cap_domain _ _ e in
    let (count, e0) =
      uint_cancel 5 (pair_count f.treasury_sub_op) (pair_count g.treasury_sub_op) _ _ (omega arith)
        (pair_count-IsU64 f.treasury_sub_op) (pair_count-IsU64 g.treasury_sub_op) inner in
    let (version, e1) =
      key_uint_cancel 1 f.cap_format_version g.cap_format_version _ _ (omega arith) hf.version_u64
        hg.version_u64 e0 in
    let (opcode, e2) =
      key_uint_cancel 2 f.command_opcode g.command_opcode _ _ (omega arith) hf.opcode_u64
        hg.opcode_u64 e1 in
    let (sub, e3) =
      sub_op_cancel f.treasury_sub_op g.treasury_sub_op _ _ hf.sub_op_u64 hg.sub_op_u64 count e2 in
    let (purpose, e4) =
      key_uint_cancel 4 f.key_purpose g.key_purpose _ _ (omega arith) hf.purpose_u64 hg.purpose_u64
        e3 in
    let (chain, e5) =
      key_uint_cancel 5 f.chain_id g.chain_id _ _ (omega arith) hf.chain_u64 hg.chain_u64 e4 in
    let (env, e6) =
      key_text_cancel 6 f.environment_identifier g.environment_identifier _ _ (omega arith)
        hf.environment_u64 hg.environment_u64 e5 in
    let (class, e7) =
      key_uint_cancel 7 f.scope_class g.scope_class _ _ (omega arith) hf.class_u64 hg.class_u64
        e6 in
    let (target, e8) =
      key_bytes_cancel 8 f.scope_target g.scope_target _ _ (omega arith) hf.target_u64 hg.target_u64
        e7 in
    let (counter, e9) =
      key_uint_cancel 9 f.counter g.counter _ _ (omega arith) hf.counter_u64 hg.counter_u64 e8 in
    let (request, e10) =
      key_bytes_cancel 10 f.request_id g.request_id _ _ (omega arith) hf.request_u64 hg.request_u64
        e9 in
    let (binding, e11) =
      key_bytes_cancel 11 f.payload_binding g.payload_binding _ _ (omega arith) hf.binding_u64
        hg.binding_u64 e10 in
    let (key12, e12) = uint_cancel 0 12 12 _ _ (omega arith) (omega arith) (omega arith) e11 in
    let (flag, e13) = flag_cancel f.is_recovery g.is_recovery _ _ e12 in
    let identity =
      last_bytes 13 f.scope_identity g.scope_identity (omega arith) e13 hf.identity_u64
        hg.identity_u64 in
    (
      version, opcode, sub, purpose, chain, env, class, target, counter, request, binding, flag,
      identity,
    )
