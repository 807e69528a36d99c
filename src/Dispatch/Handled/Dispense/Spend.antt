-- ===== src/Dispatch/Handled/Dispense/Spend.antt =====
-- `debit_and_sign` of the dispense of agent_dispatch.rs: what is debited and signed.
use d_hsm.Prelude.{ℕ, ◌+◌, ◌≡◌, refl, sym, ap, subst, List, [], false, arith, append-nil}
use d_hsm.Prelude.Attempt.{done, map_err, >>=-eq-done, map_err-done, done_inv}
use d_hsm.Keystore.Types.{KeystoreBody, FaucetState, ok, >>=-eq-ok, ok_inv}
use d_hsm.Keystore.Faucet.{FaucetResult, accepted, rejected, accept_and_debit}
use d_hsm.Keystore.Epoch.{checked_succ, advance_commit_epoch}
use d_hsm.Keystore.Grows.{Grows, checked_succ-ok}
use d_hsm.Capability.Parse.{key_purpose_mismatch}
use d_hsm.Signer.Curve.{Curve, Keypair}
use d_hsm.Signer.Transfer.{EthTransferFields, SignedTransfer, sign_transfer}
use d_hsm.Dispatch.Types.{AgentEnvelope, sign_faucet_dispense, or_seal_failed}
use d_hsm.Dispatch.Faucet.{within_caps, debit_and_sign}
use d_hsm.Dispatch.Handled.Tail.{or_seal_failed-done}

within_caps-done :
    (r : FaucetResult FaucetState) {f : FaucetState} → within_caps r ≡ done f → r ≡ accepted f
within_caps-done (accepted f) h = cc
within_caps-done (rejected e) h = cc

epoch_only :
    (x y : KeystoreBody) (f : FaucetState)
    → advance_commit_epoch (record x { faucet = f }) false ≡ ok y
    → y ≡ record x { faucet = f; freshness_epoch = x.freshness_epoch + 1 }
unfolding advance_commit_epoch
epoch_only x y f h =
    let (epoch, e0, h0) = >>=-eq-ok (checked_succ x.freshness_epoch) _ h in
    sym (
      subst (λ n. record x { faucet = f; freshness_epoch = n } ≡ y)
        (checked_succ-ok x.freshness_epoch epoch e0) (ok_inv h0))

dispense_inv :
    (s s' : SignedTransfer) (y y' : KeystoreBody) (r r' : List ℕ)
    → sign_faucet_dispense s y r ≡ sign_faucet_dispense s' y' r'
    → (s ≡ s') × (y ≡ y')
dispense_inv s s' y y' r r' h = (cc, cc)

-- The debit and the signature of a dispense.
pub record Spent (k : Curve) (x : KeystoreBody) (keypair : Keypair) (fields : EthTransferFields)
    (amount gas_price : List ℕ) (signed : SignedTransfer) (y : KeystoreBody) : Type 0 where
  pub debit : accept_and_debit x.faucet amount fields.gas_limit gas_price ≡ accepted y.faucet
  pub signed_by : sign_transfer k keypair fields ≡ done signed
  pub rest_same : y ≡ record x { faucet = y.faucet; freshness_epoch = x.freshness_epoch + 1 }

spent :
    (k : Curve) (x : KeystoreBody) (keypair : Keypair) (fields : EthTransferFields)
    (amount gas_price : List ℕ) (signed : SignedTransfer) (y : KeystoreBody) (f : FaucetState)
    → accept_and_debit x.faucet amount fields.gas_limit gas_price ≡ accepted f
    → sign_transfer k keypair fields ≡ done signed
    → y ≡ record x { faucet = f; freshness_epoch = x.freshness_epoch + 1 }
    → Spent k x keypair fields amount gas_price signed y
spent k x keypair fields amount gas_price signed y f debit by moved =
    let same : f ≡ y.faucet = sym (ap (λ b. b.faucet) moved) in
    record {
      debit =
          subst (λ g. accept_and_debit x.faucet amount fields.gas_limit gas_price ≡ accepted g) same
            debit;
      signed_by = by;
      rest_same =
          subst (λ g. y ≡ record x { faucet = g; freshness_epoch = x.freshness_epoch + 1 }) same
            moved;
    }

pub debit_and_sign-Spent :
    (k : Curve) (env : AgentEnvelope) (x : KeystoreBody) (keypair : Keypair)
    (fields : EthTransferFields) (amount gas_price : List ℕ) (signed : SignedTransfer)
    (y : KeystoreBody) (request_id : List ℕ)
    → debit_and_sign k env x keypair fields amount gas_price
      ≡ done (sign_faucet_dispense signed y request_id)
    → Spent k x keypair fields amount gas_price signed y
unfolding debit_and_sign
debit_and_sign-Spent k env x keypair fields amount gas_price signed y request_id h =
    let (f, e0, h0) =
      >>=-eq-done (within_caps (accept_and_debit x.faucet amount fields.gas_limit gas_price)) _ h in
    let (tx, e1, h1) =
      >>=-eq-done (map_err (λ _. key_purpose_mismatch) (sign_transfer k keypair fields)) _ h0 in
    let (candidate, e2, h2) =
      >>=-eq-done (or_seal_failed (advance_commit_epoch (record x { faucet = f }) false)) _ h1 in
    let (same_tx, same_body) =
      dispense_inv tx signed candidate y env.request_id request_id (done_inv h2) in
    let signed_by = map_err-done (λ _. key_purpose_mismatch) (sign_transfer k keypair fields) e1 in
    let moved = or_seal_failed-done (advance_commit_epoch (record x { faucet = f }) false) (
      subst (λ b. or_seal_failed (advance_commit_epoch (record x { faucet = f }) false) ≡ done b)
        same_body e2) in
    spent k x keypair fields amount gas_price signed y f
      (within_caps-done (accept_and_debit x.faucet amount fields.gas_limit gas_price) e0)
      (subst (λ s. sign_transfer k keypair fields ≡ done s) same_tx signed_by)
      (epoch_only x y f moved)

pub Spent-Grows :
    (k : Curve) (x : KeystoreBody) (keypair : Keypair) (fields : EthTransferFields)
    (amount gas_price : List ℕ) (signed : SignedTransfer) (y : KeystoreBody)
    → Spent k x keypair fields amount gas_price signed y
    → Grows 1 x y
Spent-Grows k x keypair fields amount gas_price signed y s =
    subst (Grows 1 x) (sym s.rest_same) (record {
      epoch = omega arith;
      structural = omega arith;
      identity = refl;
      version = omega arith;
      recovery = omega arith;
      keys = ([], sym (append-nil x.entries));
      counters = λ r. omega arith;
      audit_end = omega arith;
    })
