-- ===== src/Dispatch/Frame/Recover.antt =====
-- The replies of `handle_agent_gateway_frame` of agent_dispatch.rs, and `unseal_keystore` of
-- agent_keystore.rs on what they carry.
use d_hsm.Prelude.{
  ℕ, ◌≡◌, refl, sym, ap, ◌∙◌, subst, List, [], ◌∷◌, some, ◌⊎◌, inl, inr, eq_of_some, Any,
}
use d_hsm.Prelude.Attempt.{done}
use d_hsm.Crypto.{IsCtEq}
use d_hsm.Keystore.Types.{KeystoreBody}
use d_hsm.Keystore.Seal.{unseal_keystore}
use d_hsm.Keystore.Seal.RoundTrip.{IsSealer}
use d_hsm.Keystore.Seal.Kept.{Fills, unseal_keystore-Blob}
use d_hsm.Cbor.Value.{Entries, bytes, map_of}
use d_hsm.Cbor.Access.{map_get}
use d_hsm.Relay.Types.{Ciborium}
use d_hsm.Dispatch.Types.{
  AgentResponse, public_identity, prove_identity, sign_transfer, generate_keys,
  sign_faucet_dispense, configure_treasury,
}
use d_hsm.Dispatch.Respond.{
  encode_generate_keys_response, encode_sign_faucet_dispense_response,
  encode_configure_treasury_response,
}
use d_hsm.Dispatch.Frame.{Host, Build, Gateway, Installed, handle_agent_gateway_frame}
use d_hsm.Dispatch.Frame.Sound.{
  Frame, Installs, carried, success_body, handle_agent_gateway_frame_sound,
}
use d_hsm.Dispatch.Frame.Trail.{run_frames}

-- Where the blob stands in the answer to a command.
abbrev pub blob_key : AgentResponse → ℕ
blob_key (generate_keys keys y request_id) = 2
blob_key (sign_faucet_dispense signed y request_id) = 8
blob_key (configure_treasury y request_id) = 1
blob_key _ = 0

success_body-blob :
    (cb : Ciborium) (r : AgentResponse) (y : KeystoreBody) (request_id sealed : List ℕ)
    → carried r ≡ some (y, request_id)
    → (answer : Entries) × (success_body cb r sealed ≡ cb.into_writer (map_of answer))
      × (map_get answer (blob_key r) ≡ some (bytes sealed))
unfolding encode_generate_keys_response encode_sign_faucet_dispense_response
    encode_configure_treasury_response map_get
success_body-blob cb (generate_keys keys x id) y request_id sealed h = (_, refl, refl)
success_body-blob cb (sign_faucet_dispense signed x id) y request_id sealed h = (_, refl, refl)
success_body-blob cb (configure_treasury x id) y request_id sealed h = (_, refl, refl)
success_body-blob cb (public_identity id) y request_id sealed h = cc h
success_body-blob cb (prove_identity proof) y request_id sealed h = cc h
success_body-blob cb (sign_transfer t) y request_id sealed h = cc h

module _ {W : Type 0} (b : Build) (host : Host W) where
  -- The replies to a session, in order.
  unfoldable pub run_replies : List (List ℕ) → Gateway W → List (List ℕ)
  unfolding handle_agent_gateway_frame
  run_replies [] g = []
  run_replies (wire ∷ wires) g =
      let r = handle_agent_gateway_frame b host wire g in r.0 ∷ run_replies wires r.1

  -- One of the replies is a map with a blob at the key that the response has for it, and the response
  -- carries the candidate; the resolved provisioning root and the measurement open the blob to exactly
  -- the candidate.
  pub record Delivered (replies : List (List ℕ)) (measurement : List ℕ) (y : KeystoreBody)
      : Type 0 where
    pub response : AgentResponse
    pub request_id : List ℕ
    pub carries : carried response ≡ some (y, request_id)
    pub sealed : List ℕ
    pub answer : Entries
    pub holds : map_get answer (blob_key response) ≡ some (bytes sealed)
    pub replied : Any (λ reply. reply ≡ b.cbor.into_writer (map_of answer)) replies
    pub root : List ℕ
    pub before_root : W
    pub rooted : host.resolve_provisioning_root before_root ≡ some root
    pub opens :
        unseal_keystore b.crypto b.sealer sealed root measurement ≡ done (b.sealer.write_body y)

  -- The installed body after a session, from the first one.
  abbrev pub Recovers : List (List ℕ) → Installed → Gateway W → Type 0
  Recovers replies held g =
      (next : Installed) × (g.installed ≡ some next)
      × (next.measurement ≡ held.measurement)
      × ((next ≡ held) ⊎ Delivered replies held.measurement next.body)

  Delivered-before :
      (reply measurement : List ℕ) (replies : List (List ℕ)) (y : KeystoreBody)
      → Delivered replies measurement y
      → Delivered (reply ∷ replies) measurement y
  Delivered-before reply measurement replies y d = record {
    response = d.response;
    request_id = d.request_id;
    carries = d.carries;
    sealed = d.sealed;
    answer = d.answer;
    holds = d.holds;
    replied = inr d.replied;
    root = d.root;
    before_root = d.before_root;
    rooted = d.rooted;
    opens = d.opens;
  }

  -- The reply to a frame that installs.
  Delivered-now :
      (wire reply : List ℕ) (replies : List (List ℕ)) (g g1 : Gateway W)
      → IsSealer b.crypto b.sealer
      → Fills b.crypto b.sealer host.getrandom
      → (i : Installs b host wire g reply g1)
      → Delivered (reply ∷ replies) i.held.measurement i.candidate
  Delivered-now wire reply replies g g1 ok_s fills i =
      let (answer, made, holds) =
        success_body-blob b.cbor i.response i.candidate i.accepted.env.request_id i.sealed
          i.carries in
      record {
        response = i.response;
        request_id = i.accepted.env.request_id;
        carries = i.carries;
        sealed = i.sealed;
        answer = answer;
        holds = holds;
        replied = inl (i.emitted ∙ made);
        root = i.committed.root;
        before_root = i.committed.before_root;
        rooted = i.committed.rooted;
        opens =
            unseal_keystore-Blob b.crypto b.sealer host.getrandom i.candidate i.committed.root
              i.held.measurement i.sealed ok_s fills i.committed.written;
      }

  -- A session after a frame that leaves the installed body.
  Recovers-idle :
      (reply : List ℕ) (replies : List (List ℕ)) (held : Installed) (final : Gateway W)
      → Recovers replies held final
      → Recovers (reply ∷ replies) held final
  Recovers-idle reply replies held final (next, now, m, inl same) = (next, now, m, inl same)
  Recovers-idle reply replies held final (next, now, m, inr d) =
      (next, now, m, inr (Delivered-before reply held.measurement replies next.body d))

  -- A session after a frame that installs.
  Recovers-moved :
      (wire reply : List ℕ) (replies : List (List ℕ)) (g g1 final : Gateway W)
      → IsSealer b.crypto b.sealer
      → Fills b.crypto b.sealer host.getrandom
      → (i : Installs b host wire g reply g1)
      → Recovers replies (record { body = i.candidate; measurement = i.held.measurement }) final
      → Recovers (reply ∷ replies) i.held final
  Recovers-moved wire reply replies g g1 final ok_s fills i (next, now, m, inl same) = (
    next,
    now,
    m,
    inr (
        subst (Delivered (reply ∷ replies) i.held.measurement) (ap (λ k. k.body) (sym same))
          (Delivered-now wire reply replies g g1 ok_s fills i)),
  )
  Recovers-moved wire reply replies g g1 final ok_s fills i (next, now, m, inr d) =
      (next, now, m, inr (Delivered-before reply i.held.measurement replies next.body d))

  -- A frame and then a session.
  Recovers-after :
      (wire : List ℕ) (replies : List (List ℕ)) (g final : Gateway W) (held : Installed)
      (result : List ℕ × Gateway W)
      → IsSealer b.crypto b.sealer
      → Fills b.crypto b.sealer host.getrandom
      → g.installed ≡ some held
      → Frame b host wire g result
      → ((next : Installed) → result.1.installed ≡ some next → Recovers replies next final)
      → Recovers (result.0 ∷ replies) held final
  Recovers-after wire replies g final held (reply, g1) ok_s fills was
        (process, channel, inl answers) rest =
      Recovers-idle reply replies held final (rest held (answers.0 ∙ was))
  Recovers-after wire replies g final held (reply, g1) ok_s fills was (process, channel, inr i)
        rest =
      subst (λ k. Recovers (reply ∷ replies) k final) (eq_of_some (sym i.was ∙ was))
        (Recovers-moved wire reply replies g g1 final ok_s fills i
          (rest (record { body = i.candidate; measurement = i.held.measurement }) i.now))

  -- After any frames from an installed body, where ct_eq is equality, the hash is of 32 bytes, the
  -- cipher opens what it has closed and the generator fills what it is asked for: the installed body
  -- is the first one, or one of the replies is a map that holds, at the key of the response that carries
  -- that body, a blob that unseals, under the resolved provisioning root and the measurement, to exactly
  -- its serialization.
  pub run_frames-Recovers :
      (wires : List (List ℕ)) (g : Gateway W) (held : Installed)
      → IsCtEq b.crypto
      → IsSealer b.crypto b.sealer
      → Fills b.crypto b.sealer host.getrandom
      → g.installed ≡ some held
      → Recovers (run_replies wires g) held (run_frames b host wires g)
  unfolding run_replies run_frames
  run_frames-Recovers [] g held ct ok_s fills was = (held, was, refl, inl refl)
  run_frames-Recovers (wire ∷ wires) g held ct ok_s fills was =
      let r = handle_agent_gateway_frame b host wire g in
      Recovers-after wire (run_replies wires r.1) g (run_frames b host wires r.1) held r ok_s fills
        was (handle_agent_gateway_frame_sound b host wire g ct)
        (λ next now. run_frames-Recovers wires r.1 next ct ok_s fills now)
