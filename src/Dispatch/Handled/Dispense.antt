-- ===== src/Dispatch/Handled/Dispense.antt =====
-- `handle_sign_faucet_dispense` of agent_dispatch.rs: what a dispense is.
pub mod Authority
pub mod Spend
use d_hsm.Prelude.{ℕ, ◌≡◌, sym, ◌∙◌, subst, List, some, eq_of_some}
use d_hsm.Prelude.Bytes.{be_value}
use d_hsm.Prelude.Attempt.{done, ok_or, >>=-eq-done, ok_or-done}
use d_hsm.U256.{from_minimal_be}
use d_hsm.U256.Exact.{from_minimal_be-some}
use d_hsm.Cbor.Value.{Entries}
use d_hsm.Keystore.Types.{KeystoreBody}
use d_hsm.Keystore.Faucet.{accepted}
use d_hsm.Keystore.Faucet.Gate.{IsFaucet, Debited, accept_and_debit_sound}
use d_hsm.Keystore.Grows.{Grows}
use d_hsm.Capability.Parse.{malformed}
use d_hsm.Signer.Curve.{Curve, Keypair}
use d_hsm.Signer.Transfer.{SignedTransfer}
use d_hsm.Dispatch.Types.{AgentEnvelope, sign_faucet_dispense}
use d_hsm.Dispatch.Payload.{TransferRequest, transfer_request}
use d_hsm.Dispatch.Faucet.{treasury_signer, handle_sign_faucet_dispense}
use d_hsm.Dispatch.Handled.Bytes.{ByteStrings, read-minimal_IsByte}
use d_hsm.Dispatch.Handled.Dispense.Authority.{
  Requested, transfer_request-Requested, Authorized, treasury_signer-Authorized,
}
use d_hsm.Dispatch.Handled.Dispense.Spend.{Spent, debit_and_sign-Spent, Spent-Grows}

-- What an accepted dispense is, of the body `x`, with the candidate `y`.
pub record Dispensed (k : Curve) (env : AgentEnvelope) (x : KeystoreBody) (signed : SignedTransfer)
    (y : KeystoreBody) : Type 0 where
  pub payload : Entries
  pub sent : env.payload ≡ some payload
  pub req : TransferRequest
  pub requested : Requested payload x.config.twod_chain_id req
  pub key_ref : List ℕ
  pub named : env.key_ref ≡ some key_ref
  pub keypair : Keypair
  pub authorized : Authorized k x key_ref req keypair
  pub amount : List ℕ
  pub amount_lifted : from_minimal_be req.fields.value_be ≡ some amount
  pub gas_price : List ℕ
  pub price_lifted : from_minimal_be req.fields.gas_price_be ≡ some gas_price
  pub spent : Spent k x keypair req.fields amount gas_price signed y

pub handle_sign_faucet_dispense_sound :
    (k : Curve) (env : AgentEnvelope) (x : KeystoreBody) (signed : SignedTransfer)
    (y : KeystoreBody) (request_id : List ℕ)
    → handle_sign_faucet_dispense k env x ≡ done (sign_faucet_dispense signed y request_id)
    → Dispensed k env x signed y
unfolding handle_sign_faucet_dispense
handle_sign_faucet_dispense_sound k env x signed y request_id h =
    let (key_ref, e0, h0) = >>=-eq-done (ok_or env.key_ref malformed) _ h in
    let (payload, e1, h1) = >>=-eq-done (ok_or env.payload malformed) _ h0 in
    let (req, e2, h2) = >>=-eq-done (transfer_request payload x.config.twod_chain_id) _ h1 in
    let (amount, e3, h3) =
      >>=-eq-done (ok_or (from_minimal_be req.fields.value_be) malformed) _ h2 in
    let (price, e4, h4) =
      >>=-eq-done (ok_or (from_minimal_be req.fields.gas_price_be) malformed) _ h3 in
    let (keypair, e5, h5) = >>=-eq-done (treasury_signer k x key_ref req) _ h4 in
    record {
      payload = payload;
      sent = ok_or-done env.payload malformed e1;
      req = req;
      requested = transfer_request-Requested payload x.config.twod_chain_id req e2;
      key_ref = key_ref;
      named = ok_or-done env.key_ref malformed e0;
      keypair = keypair;
      authorized = treasury_signer-Authorized k x key_ref req keypair e5;
      amount = amount;
      amount_lifted = ok_or-done (from_minimal_be req.fields.value_be) malformed e3;
      gas_price = price;
      price_lifted = ok_or-done (from_minimal_be req.fields.gas_price_be) malformed e4;
      spent = debit_and_sign-Spent k env x keypair req.fields amount price signed y request_id h5;
    }

pub dispense-Grows :
    (k : Curve) (env : AgentEnvelope) (x : KeystoreBody) (signed : SignedTransfer)
    (y : KeystoreBody)
    → Dispensed k env x signed y
    → Grows 1 x y
dispense-Grows k env x signed y d =
    Spent-Grows k x d.keypair d.req.fields d.amount d.gas_price signed y d.spent

dispense-Debited :
    (k : Curve) (env : AgentEnvelope) (x : KeystoreBody) (signed : SignedTransfer)
    (y : KeystoreBody)
    → IsFaucet x.faucet
    → (d : Dispensed k env x signed y) → ByteStrings d.payload
    → Debited x.faucet y.faucet d.amount d.req.fields.gas_limit d.gas_price
      × (be_value d.amount ≡ be_value d.req.fields.value_be)
      × (be_value d.gas_price ≡ be_value d.req.fields.gas_price_be)
dispense-Debited k env x signed y faucet d all =
    let f = d.req.fields in
    let (amount, amount_value) =
      from_minimal_be-some f.value_be
        (read-minimal_IsByte d.payload 4 f.value_be all d.requested.value) d.amount_lifted in
    let (price, price_value) =
      from_minimal_be-some f.gas_price_be
        (read-minimal_IsByte d.payload 7 f.gas_price_be all d.requested.price) d.price_lifted in
    (
      accept_and_debit_sound x.faucet d.amount f.gas_limit d.gas_price y.faucet faucet amount price
          d.spent.debit,
      amount_value,
      price_value,
    )

-- For a faucet of 32-byte words and a payload whose byte strings are of bytes: a dispense that the
-- handler signs is by the stored treasury key over the requested fields, on the sealed chain, to the
-- address of a stored transfer key, and changes nothing but the faucet and the epoch; both spend
-- counters grow by the signed amount and the signed price times the signed gas limit, within every
-- cap, the budget and the breaker.
pub handle_sign_faucet_dispense_spends :
    (k : Curve) (env : AgentEnvelope) (x : KeystoreBody) (signed : SignedTransfer)
    (y : KeystoreBody) (request_id : List ℕ) (payload : Entries)
    → IsFaucet x.faucet
    → env.payload ≡ some payload
    → ByteStrings payload
    → handle_sign_faucet_dispense k env x ≡ done (sign_faucet_dispense signed y request_id)
    → (d : Dispensed k env x signed y) × Debited x.faucet y.faucet d.amount d.req.fields.gas_limit
        d.gas_price
      × (be_value d.amount ≡ be_value d.req.fields.value_be)
      × (be_value d.gas_price ≡ be_value d.req.fields.gas_price_be)
handle_sign_faucet_dispense_spends k env x signed y request_id payload faucet sent all h =
    let d = handle_sign_faucet_dispense_sound k env x signed y request_id h in
    let same : payload ≡ d.payload = eq_of_some (sym sent ∙ d.sent) in
    let (debit, amount, price) =
      dispense-Debited k env x signed y faucet d (subst ByteStrings same all) in
    (d, debit, amount, price)
