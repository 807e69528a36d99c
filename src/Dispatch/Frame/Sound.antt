-- ===== src/Dispatch/Frame/Sound.antt =====
-- `handle_agent_gateway_frame` of agent_dispatch.rs: what a frame does, by how it ends.
use d_hsm.Prelude.{
  ℕ, ◌≡◌, refl, sym, ap, ◌∙◌, subst, List, true, false, Option, none, some, ◌⊎◌, inl, inr,
  eq_of_some,
}
use d_hsm.Prelude.Attempt.{Attempt, done, failed}
use d_hsm.Crypto.{IsCtEq}
use d_hsm.Keystore.Types.{KeystoreBody}
use d_hsm.Keystore.Grows.{Grows}
use d_hsm.Boot.Process.{is_anti_rollback_configured}
use d_hsm.Capability.Parse.{AgentError, wrong_profile}
use d_hsm.Relay.Types.{Ciborium}
use d_hsm.Dispatch.Types.{
  AgentEnvelope, AgentResponse, agent_gateway, public_identity, prove_identity, sign_transfer,
  generate_keys, sign_faucet_dispense, configure_treasury,
}
use d_hsm.Dispatch.Route.{dispatch_agent}
use d_hsm.Dispatch.Respond.{
  encode_agent_error, encode_agent_response, encode_generate_keys_response,
  encode_sign_faucet_dispense_response, encode_configure_treasury_response,
}
use d_hsm.Dispatch.Frame.{
  Host, Build, Gateway, Installed, seal_and_commit, swapped, commit_before_emit, responded,
  dispatched, served, handle_agent_gateway_frame,
}
use d_hsm.Dispatch.Frame.Sealed.{Committed, seal_and_commit-Committed}
use d_hsm.Dispatch.Handled.Minted.{MintedFor-Grows}
use d_hsm.Dispatch.Handled.Treasury.{Configured-Grows}
use d_hsm.Dispatch.Handled.Dispense.{dispense-Grows}
use d_hsm.Dispatch.Outcome.{Dispatched, dispatch_agent_sound}
use d_hsm.Dispatch.Outcome.Routed.{Outcome, reads, minted, configured, dispensed}
use d_hsm.Dispatch.Outcome.Reads.{is_read}

-- The candidate of a response and the identifier that keys it.
abbrev pub carried : AgentResponse → Option (KeystoreBody × List ℕ)
carried (generate_keys keys y request_id) = some (y, request_id)
carried (sign_faucet_dispense signed y request_id) = some (y, request_id)
carried (configure_treasury y request_id) = some (y, request_id)
carried (public_identity id) = none
carried (prove_identity proof) = none
carried (sign_transfer t) = none

read_carried : (r : AgentResponse) → is_read r ≡ true → carried r ≡ none
read_carried (public_identity id) h = refl
read_carried (prove_identity proof) h = refl
read_carried (sign_transfer t) h = refl
read_carried (generate_keys keys y request_id) h = cc
read_carried (sign_faucet_dispense signed y request_id) h = cc
read_carried (configure_treasury y request_id) h = cc

-- The body of a success, with the sealed blob where there is a candidate.
abbrev pub success_body : Ciborium → AgentResponse → List ℕ → List ℕ
success_body cb (generate_keys keys y request_id) sealed =
    encode_generate_keys_response cb keys sealed
success_body cb (sign_faucet_dispense signed y request_id) sealed =
    encode_sign_faucet_dispense_response cb signed sealed
success_body cb (configure_treasury y request_id) sealed =
    encode_configure_treasury_response cb sealed
success_body cb r sealed = encode_agent_response cb r

module _ {W : Type 0} (b : Build) (host : Host W) where
  abbrev pub Accepted : List ℕ → Gateway W → Installed → AgentResponse → Type 0
  Accepted wire g held r =
      Dispatched b.crypto b.curve b.features host.getrandom wire held.body g.process r

  -- A frame that installs: what it installs, what has granted it, and what it hands out.
  pub record Installs (wire : List ℕ) (g : Gateway W) (reply : List ℕ) (g' : Gateway W)
      : Type 0 where
    pub held : Installed
    pub was : g.installed ≡ some held
    pub response : AgentResponse
    pub accepted : Accepted wire g held response
    pub candidate : KeystoreBody
    pub carries : carried response ≡ some (candidate, accepted.env.request_id)
    pub grows : Grows 1 held.body candidate
    pub bound : is_anti_rollback_configured g.process ≡ true
    pub sealed : List ℕ
    pub committed : Committed b host candidate accepted.env.request_id held.measurement sealed
    pub now : g'.installed ≡ some (record { body = candidate; measurement = held.measurement })
    pub emitted : reply ≡ success_body b.cbor response sealed

  -- A frame that installs nothing answers with an error, or with a response without a candidate.
  abbrev pub Answers : Gateway W → List ℕ → Gateway W → Type 0
  Answers g reply g' =
      (g'.installed ≡ g.installed)
      × (((e : AgentError) × (reply ≡ encode_agent_error b.cbor e))
          ⊎ ((r : AgentResponse) × (is_read r ≡ true) × (reply ≡ encode_agent_response b.cbor r)))

  abbrev pub Frame : List ℕ → Gateway W → List ℕ × Gateway W → Type 0
  Frame wire g (reply, g') =
      (g'.process ≡ g.process)
      × (g'.channel_installed ≡ g.channel_installed)
      × (Answers g reply g' ⊎ Installs wire g reply g')

  -- What a response with a candidate is.
  Outcome-Grows :
      (env : AgentEnvelope) (x : KeystoreBody) (r : AgentResponse) (y : KeystoreBody)
      (request_id : List ℕ)
      → Outcome b.crypto b.curve b.features host.getrandom env x r
      → carried r ≡ some (y, request_id)
      → (request_id ≡ env.request_id) × Grows 1 x y × (is_read r ≡ false)
  Outcome-Grows env x r y request_id (reads r1 e) h = let empty = sym (read_carried r1 e) ∙ h in cc
  Outcome-Grows env x r y request_id (minted v keys y1 granted made) h =
      let same = eq_of_some h in
      (
        sym (ap (λ p. p.1) same),
        subst (Grows 1 x) (ap (λ p. p.0) same)
            (MintedFor-Grows b.crypto b.curve host.getrandom env x v keys y1 made),
        refl,
      )
  Outcome-Grows env x r y request_id (configured v y1 granted made) h =
      let same = eq_of_some h in
      (
        sym (ap (λ p. p.1) same),
        subst (Grows 1 x) (ap (λ p. p.0) same) (Configured-Grows b.crypto b.curve env x v y1 made),
        refl,
      )
  Outcome-Grows env x r y request_id (dispensed signed y1 made) h =
      let same = eq_of_some h in
      (
        sym (ap (λ p. p.1) same),
        subst (Grows 1 x) (ap (λ p. p.0) same) (dispense-Grows b.curve env x signed y1 made),
        refl,
      )

  error-Frame :
      (wire : List ℕ) (g : Gateway W) (w : W) (e : AgentError)
      → Frame wire g (encode_agent_error b.cbor e, record g { world = w })
  error-Frame wire g w e = (refl, refl, inl (refl, inl (e, refl)))

  swapped-Frame :
      (wire : List ℕ) (g : Gateway W) (held : Installed) (r : AgentResponse) (w : W)
      (y : KeystoreBody) (request_id : List ℕ) (result : Attempt AgentError (List ℕ) × W)
      → g.installed ≡ some held
      → Accepted wire g held r
      → carried r ≡ some (y, request_id)
      → seal_and_commit b host g.channel_installed y request_id held.measurement w ≡ result
      → Frame wire g (
          swapped b host y held.measurement (success_body b.cbor r) (record g { world = w }) result)
  swapped-Frame wire g held r w y request_id (failed e, w1) was d c h = error-Frame wire g w1 e
  swapped-Frame wire g held r w y request_id (done sealed, w1) was d c h =
      let (keyed, grows, carries) = Outcome-Grows d.env held.body r y request_id d.outcome c in
      let made =
        seal_and_commit-Committed b host g.channel_installed y request_id held.measurement sealed w
          w1 h in
      (
        refl,
        refl,
        inr (record {
          held = held;
          was = was;
          response = r;
          accepted = d;
          candidate = y;
          carries = c ∙ ap (λ n. some (y, n)) keyed;
          grows = grows;
          bound = d.gated carries;
          sealed = sealed;
          committed = subst (λ n. Committed b host y n held.measurement sealed) keyed made;
          now = refl;
          emitted = refl;
        }),
      )

  responded-Frame :
      (wire : List ℕ) (g : Gateway W) (held : Installed)
      (outcome : Attempt AgentError AgentResponse) (w : W)
      → g.installed ≡ some held
      → ((r : AgentResponse) → outcome ≡ done r → Accepted wire g held r)
      → Frame wire g (responded b host held.measurement (record g { world = w }) outcome)
  unfolding responded commit_before_emit
  responded-Frame wire g held (failed e) w was d = error-Frame wire g w e
  responded-Frame wire g held (done (public_identity id)) w was d =
      (refl, refl, inl (refl, inr (public_identity id, refl, refl)))
  responded-Frame wire g held (done (prove_identity proof)) w was d =
      (refl, refl, inl (refl, inr (prove_identity proof, refl, refl)))
  responded-Frame wire g held (done (sign_transfer t)) w was d =
      (refl, refl, inl (refl, inr (sign_transfer t, refl, refl)))
  responded-Frame wire g held (done (generate_keys keys y request_id)) w was d =
      swapped-Frame wire g held (generate_keys keys y request_id) w y request_id _ was
        (d (generate_keys keys y request_id) refl) refl refl
  responded-Frame wire g held (done (sign_faucet_dispense signed y request_id)) w was d =
      swapped-Frame wire g held (sign_faucet_dispense signed y request_id) w y request_id _ was
        (d (sign_faucet_dispense signed y request_id) refl) refl refl
  responded-Frame wire g held (done (configure_treasury y request_id)) w was d =
      swapped-Frame wire g held (configure_treasury y request_id) w y request_id _ was
        (d (configure_treasury y request_id) refl) refl refl

  dispatched-Frame :
      (wire : List ℕ) (g : Gateway W) (held : Installed)
      (result : Attempt AgentError AgentResponse × W)
      → IsCtEq b.crypto
      → g.installed ≡ some held
      → dispatch_agent b.crypto b.curve b.features host.getrandom agent_gateway wire held.body
          g.process g.world
        ≡ result
      → Frame wire g (dispatched b host held.measurement g result)
  dispatched-Frame wire g held (outcome, w) ct was h =
      responded-Frame wire g held outcome w was (λ r e.
        dispatch_agent_sound b.crypto b.curve b.features host.getrandom wire held.body g.process r
          g.world w ct (h ∙ ap (λ o. (o, w)) e))

  served-Frame :
      (wire : List ℕ) (g : Gateway W) (slot : Option Installed)
      → IsCtEq b.crypto
      → g.installed ≡ slot
      → Frame wire g (served b host wire g slot)
  served-Frame wire g none ct was = error-Frame wire g g.world wrong_profile
  served-Frame wire g (some held) ct was = dispatched-Frame wire g held _ ct was refl

  -- Where ct_eq is equality, a frame changes neither the process nor the channel's slot. It leaves
  -- the installed keystore and answers with an error or with a response that carries no candidate;
  -- or the envelope of the frame was decoded, its domain is the gateway's, the response is what the
  -- opcode's handler has granted, the process is bound to the anchor, and the candidate, one epoch
  -- ahead and with nothing lost, is installed: it validates, the blob in the answer is sealed from
  -- it, and its commit request went out on the channel and was answered by an acknowledgement of its
  -- state, under the envelope's identifier, that the sealed anchor root signed.
  pub handle_agent_gateway_frame_sound :
      (wire : List ℕ) (g : Gateway W)
      → IsCtEq b.crypto
      → Frame wire g (handle_agent_gateway_frame b host wire g)
  unfolding handle_agent_gateway_frame
  handle_agent_gateway_frame_sound wire g ct = served-Frame wire g g.installed ct refl
