-- ===== src/Dispatch/Handled/Dispense/Authority.antt =====
-- `treasury_signer` and `transfer_request` of the dispense of agent_dispatch.rs: who signs, and for whom.
use d_hsm.Prelude.{
  ℕ, ◌≡◌, refl, ap, ◌∙◌, arith, subst, List, [], ◌∷◌, Bool, true, false, not, not-eq_true, ◌&&◌,
  ◌||◌, some, leb, ◌==◌, ==_iff, length, Any, inl, inr, Bool-cases,
}
use d_hsm.Prelude.Bytes.{bytes_eq, bytes_eq_sound}
use d_hsm.Prelude.Attempt.{
  Attempt, done, failed, ok_or, >>=-eq-done, ensure-done, ok_or-done, done_inv,
}
use d_hsm.Cbor.Value.{Entries}
use d_hsm.Cbor.Access.{check_strict_keys, read_at, as_u64, as_bytes, as_bytes_n, as_u256_minimal_be}
use d_hsm.Keystore.Types.{KeystoreBody, KeyEntry}
use d_hsm.Capability.Parse.{malformed, key_purpose_mismatch}
use d_hsm.Signer.Curve.{Curve, Keypair, Secp256k1Error, eth_address, eth_address_from_uncompressed}
use d_hsm.Signer.Identity.{find_entry}
use d_hsm.Dispatch.Types.{entry_count, is_transfer}
use d_hsm.Dispatch.Identity.{load_keypair_for}
use d_hsm.Dispatch.Payload.{TransferRequest, transfer_request}
use d_hsm.Dispatch.Faucet.{address_is, has_recipient, is_known_transfer_recipient, treasury_signer}

-- A stored transfer key whose address is `to`.
pub record IsRecipient (k : Curve) (to : List ℕ) (e : KeyEntry) : Type 0 where
  pub transfer : is_transfer e.purpose ≡ true
  pub address : eth_address_from_uncompressed k e.public_identity ≡ done to

address_is-done :
    (to : List ℕ) (r : Attempt Secp256k1Error (List ℕ)) → address_is to r ≡ true → r ≡ done to
address_is-done to (done a) h = ap done (bytes_eq_sound a to h)
address_is-done to (failed e) h = cc

pub and_true : (a b : Bool) → (a && b) ≡ true → (a ≡ true) × (b ≡ true)
and_true true b h = (refl, h)
and_true false b h = cc

has_recipient-Any :
    (k : Curve) (to : List ℕ) (es : List KeyEntry)
    → has_recipient k to es ≡ true
    → Any (IsRecipient k to) es
unfolding has_recipient
has_recipient-Any k to [] h = cc
has_recipient-Any k to (e ∷ es) h =
    let here =
      is_transfer e.purpose
      && length e.public_identity == 65
      && address_is to (eth_address_from_uncompressed k e.public_identity) in
    elim (Bool-cases here) [
      | inl yes_key ↦
          let address_ok = address_is to (eth_address_from_uncompressed k e.public_identity) in
          let wide = length e.public_identity == 65 in
          let (first, address) = and_true (is_transfer e.purpose && wide) address_ok yes_key in
          let (transfer, len) = and_true (is_transfer e.purpose) wide first in
          inl (record {
            transfer = transfer;
            address =
                address_is-done to (eth_address_from_uncompressed k e.public_identity) address;
          })
      | inr no_key ↦
          inr
            (has_recipient-Any k to es (subst (λ t. (t || has_recipient k to es) ≡ true) no_key h))
    ]

-- Each field of a request is the value at its key of the payload, there are eight keys, the chain is
-- the sealed one and there is no data.
pub record Requested (payload : Entries) (chain : ℕ) (req : TransferRequest) : Type 0 where
  pub eight : entry_count payload ≡ 8
  pub chain_id : req.fields.chain_id ≡ chain
  pub chain_sent : read_at as_u64 payload 1 ≡ some req.fields.chain_id
  pub from : read_at (as_bytes_n 20) payload 2 ≡ some req.from
  pub to : read_at (as_bytes_n 20) payload 3 ≡ some req.fields.to
  pub value : read_at as_u256_minimal_be payload 4 ≡ some req.fields.value_be
  pub nonce : read_at as_u64 payload 5 ≡ some req.fields.nonce
  pub gas_limit : read_at as_u64 payload 6 ≡ some req.fields.gas_limit
  pub price : read_at as_u256_minimal_be payload 7 ≡ some req.fields.gas_price_be
  pub no_data : read_at as_bytes payload 8 ≡ some []

length_zero : (l : List ℕ) → (length l == 0) ≡ true → l ≡ []
length_zero [] h = refl
length_zero (x ∷ xs) h = ground (arith, h)

pub transfer_request-Requested :
    (payload : Entries) (chain : ℕ) (req : TransferRequest)
    → transfer_request payload chain ≡ done req
    → Requested payload chain req
unfolding transfer_request
transfer_request-Requested payload chain req h =
    let (shape, h1) =
      ensure-done (entry_count payload == 8 && check_strict_keys payload (λ n. leb 1 n && leb n 8))
        malformed _ h in
    let (id, e1, h2) = >>=-eq-done (ok_or (read_at as_u64 payload 1) malformed) _ h1 in
    let (from, e2, h3) = >>=-eq-done (ok_or (read_at (as_bytes_n 20) payload 2) malformed) _ h2 in
    let (to, e3, h4) = >>=-eq-done (ok_or (read_at (as_bytes_n 20) payload 3) malformed) _ h3 in
    let (value, e4, h5) =
      >>=-eq-done (ok_or (read_at as_u256_minimal_be payload 4) malformed) _ h4 in
    let (nonce, e5, h6) = >>=-eq-done (ok_or (read_at as_u64 payload 5) malformed) _ h5 in
    let (gas, e6, h7) = >>=-eq-done (ok_or (read_at as_u64 payload 6) malformed) _ h6 in
    let (price, e7, h8) =
      >>=-eq-done (ok_or (read_at as_u256_minimal_be payload 7) malformed) _ h7 in
    let (extra, e8, h9) = >>=-eq-done (ok_or (read_at as_bytes payload 8) malformed) _ h8 in
    let (none_extra, h10) = ensure-done (length extra == 0) malformed _ h9 in
    let (same, h11) = ensure-done (id == chain) malformed _ h10 in
    subst (Requested payload chain) (done_inv h11) (record {
      eight =
          (==_iff (entry_count payload) 8).0
            (and_true (entry_count payload == 8)
              (check_strict_keys payload (λ n. leb 1 n && leb n 8)) shape).0;
      chain_id = (==_iff id chain).0 same;
      chain_sent = ok_or-done (read_at as_u64 payload 1) malformed e1;
      from = ok_or-done (read_at (as_bytes_n 20) payload 2) malformed e2;
      to = ok_or-done (read_at (as_bytes_n 20) payload 3) malformed e3;
      nonce = ok_or-done (read_at as_u64 payload 5) malformed e5;
      gas_limit = ok_or-done (read_at as_u64 payload 6) malformed e6;
      no_data =
          ok_or-done (read_at as_bytes payload 8) malformed e8
          ∙ ap some (length_zero extra none_extra);
      value = ok_or-done (read_at as_u256_minimal_be payload 4) malformed e4;
      price = ok_or-done (read_at as_u256_minimal_be payload 7) malformed e7;
    })

-- The key that a dispense is signed with.
pub record Authorized (k : Curve) (x : KeystoreBody) (key_ref : List ℕ) (req : TransferRequest)
    (keypair : Keypair) : Type 0 where
  pub entry : KeyEntry
  pub found : find_entry x key_ref ≡ some entry
  pub treasury : is_transfer entry.purpose ≡ false
  pub loaded : load_keypair_for k entry ≡ done keypair
  pub own : req.from ≡ eth_address k keypair
  pub recipient : Any (IsRecipient k req.fields.to) x.entries

pub treasury_signer-Authorized :
    (k : Curve) (x : KeystoreBody) (key_ref : List ℕ) (req : TransferRequest) (keypair : Keypair)
    → treasury_signer k x key_ref req ≡ done keypair
    → Authorized k x key_ref req keypair
unfolding treasury_signer is_known_transfer_recipient
treasury_signer-Authorized k x key_ref req keypair h =
    let (entry, e0, h0) = >>=-eq-done (ok_or (find_entry x key_ref) key_purpose_mismatch) _ h in
    let (treasury, h1) = ensure-done (not (is_transfer entry.purpose)) key_purpose_mismatch _ h0 in
    let (pair, e2, h2) = >>=-eq-done (load_keypair_for k entry) _ h1 in
    let (own, h3) =
      ensure-done (bytes_eq req.from (eth_address k pair)) key_purpose_mismatch _ h2 in
    let (known, h4) =
      ensure-done (has_recipient k req.fields.to x.entries) key_purpose_mismatch _ h3 in
    subst (Authorized k x key_ref req) (done_inv h4) (record {
      entry = entry;
      found = ok_or-done (find_entry x key_ref) key_purpose_mismatch e0;
      treasury = not-eq_true (is_transfer entry.purpose) treasury;
      loaded = e2;
      own = bytes_eq_sound req.from (eth_address k pair) own;
      recipient = has_recipient-Any k req.fields.to x.entries known;
    })
