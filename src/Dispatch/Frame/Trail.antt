-- ===== src/Dispatch/Frame/Trail.antt =====
-- `handle_agent_gateway_frame` of agent_dispatch.rs, one frame after another.
use d_hsm.Prelude.{
  ℕ, ◌+◌, ◌≤◌, ◌≡◌, refl, sym, ap, ◌∙◌, subst, List, [], ◌∷◌, false, some, inl, inr, eq_of_some,
  length, arith, suc,
}
use d_hsm.Crypto.{IsCtEq}
use d_hsm.Keystore.Types.{KeystoreBody}
use d_hsm.Keystore.Grows.{Grows, Grows-refl, Grows-trans}
use d_hsm.Boot.Process.{Process, is_anti_rollback_configured}
use d_hsm.Dispatch.Frame.{Host, Build, Gateway, Installed, handle_agent_gateway_frame}
use d_hsm.Dispatch.Frame.Sealed.{Committed}
use d_hsm.Dispatch.Frame.Sound.{Frame, handle_agent_gateway_frame_sound}

module _ {W : Type 0} (b : Build) (host : Host W) where
  -- The frames of a session, in order.
  unfoldable pub run_frames : List (List ℕ) → Gateway W → Gateway W
  unfolding handle_agent_gateway_frame
  run_frames [] g = g
  run_frames (wire ∷ wires) g = run_frames wires (handle_agent_gateway_frame b host wire g).1

  -- The states of a body, each acknowledged under the identifier of the request that made it.
  pub data Trail (measurement : List ℕ) : ℕ → KeystoreBody → KeystoreBody → Type 0 where
    stays : (x : KeystoreBody) → Trail measurement 0 x x
    moves :
        (n : ℕ) (x y z : KeystoreBody) (request_id sealed : List ℕ)
        → Grows 1 x y
        → Committed b host y request_id measurement sealed
        → Trail measurement n y z
        → Trail measurement (suc n) x z

  pub Trail-Grows :
      (measurement : List ℕ) (n : ℕ) (x y : KeystoreBody) → Trail measurement n x y → Grows n x y
  Trail-Grows measurement _ x _ (stays _) = Grows-refl x
  Trail-Grows measurement _ x z (moves n _ y _ request_id sealed grows made rest) =
      let same : 1 + n ≡ suc n = omega arith in
      subst (λ k. Grows k x z) same
        (Grows-trans 1 n x y z grows (Trail-Grows measurement n y z rest))

  -- The state after at most `limit` frames, from an installed body.
  pub record Session (limit : ℕ) (held : Installed) (process : Process) (g : Gateway W)
      : Type 0 where
    pub commits : ℕ
    pub within : commits ≤ limit
    pub body : KeystoreBody
    pub now : g.installed ≡ some (record { body = body; measurement = held.measurement })
    pub trail : Trail held.measurement commits held.body body
    pub same_process : g.process ≡ process

  Session-start :
      (g : Gateway W) (held : Installed) → g.installed ≡ some held → Session 0 held g.process g
  Session-start g held was = record {
    commits = 0;
    within = omega arith;
    body = held.body;
    now = was;
    trail = stays held.body;
    same_process = refl;
  }

  Session-idle :
      (limit : ℕ) (held : Installed) (process : Process) (g : Gateway W)
      → Session limit held process g
      → Session (suc limit) held process g
  Session-idle limit held process g s = record {
    commits = s.commits;
    within = let fits = s.within in omega arith;
    body = s.body;
    now = s.now;
    trail = s.trail;
    same_process = s.same_process;
  }

  Session-moves :
      (limit : ℕ) (held : Installed) (process : Process) (g : Gateway W) (y : KeystoreBody)
      (request_id sealed : List ℕ)
      → Grows 1 held.body y
      → Committed b host y request_id held.measurement sealed
      → Session limit (record { body = y; measurement = held.measurement }) process g
      → Session (suc limit) held process g
  Session-moves limit held process g y request_id sealed grows made s = record {
    commits = suc s.commits;
    within = let fits = s.within in omega arith;
    body = s.body;
    now = s.now;
    trail = moves s.commits held.body y s.body request_id sealed grows made s.trail;
    same_process = s.same_process;
  }

  -- A frame and then a session.
  Session-after :
      (limit : ℕ) (wire : List ℕ) (g final : Gateway W) (held : Installed)
      (result : List ℕ × Gateway W)
      → g.installed ≡ some held
      → Frame b host wire g result
      → ((next : Installed)
          → result.1.installed ≡ some next
          → Session limit next result.1.process final)
      → Session (suc limit) held g.process final
  Session-after limit wire g final held (reply, g1) was (process, channel, inl answers) rest =
      Session-idle limit held g.process final
        (subst (λ p. Session limit held p final) process (rest held (answers.0 ∙ was)))
  Session-after limit wire g final held (reply, g1) was (process, channel, inr i) rest =
      let same : i.held ≡ held = eq_of_some (sym i.was ∙ was) in
      let measured = ap (λ h. h.measurement) same in
      Session-moves limit held g.process final i.candidate i.accepted.env.request_id i.sealed
        (subst (λ h. Grows 1 h.body i.candidate) same i.grows)
        (subst (λ m. Committed b host i.candidate i.accepted.env.request_id m i.sealed) measured
          i.committed)
        (subst
          (λ p.
            Session limit (record { body = i.candidate; measurement = held.measurement }) p final)
          process
          (rest (record { body = i.candidate; measurement = held.measurement })
            (i.now ∙ ap (λ m. some (record { body = i.candidate; measurement = m })) measured)))

  run_frames-Session :
      (wires : List (List ℕ)) (g : Gateway W) (held : Installed)
      → IsCtEq b.crypto
      → g.installed ≡ some held
      → Session (length wires) held g.process (run_frames wires g)
  unfolding run_frames
  run_frames-Session [] g held ct was = Session-start g held was
  run_frames-Session (wire ∷ wires) g held ct was =
      Session-after (length wires) wire g
        (run_frames wires (handle_agent_gateway_frame b host wire g).1) held
        (handle_agent_gateway_frame b host wire g) was
        (handle_agent_gateway_frame_sound b host wire g ct)
        (λ next now.
          run_frames-Session wires (handle_agent_gateway_frame b host wire g).1 next ct now)

  -- Where ct_eq is equality: from an installed body, any frames end in an installed body for the
  -- same measurement, and the process is as it was. Between the two bodies are as many acknowledged
  -- commits as the epoch has grown by, at most one for a frame, each of a body that validates and is
  -- sealed into a blob; no key, counter, version or audit position is lost on the way, and the
  -- identity does not change.
  pub run_frames_refines :
      (wires : List (List ℕ)) (g : Gateway W) (held : Installed)
      → IsCtEq b.crypto
      → g.installed ≡ some held
      → (s : Session (length wires) held g.process (run_frames wires g)) × Grows s.commits held.body
          s.body
  run_frames_refines wires g held ct was =
      let s = run_frames-Session wires g held ct was in
      (s, Trail-Grows held.measurement s.commits held.body s.body s.trail)

  unbound-Frame :
      (wire : List ℕ) (g : Gateway W) (result : List ℕ × Gateway W)
      → is_anti_rollback_configured g.process ≡ false
      → Frame b host wire g result
      → (result.1.installed ≡ g.installed) × (result.1.process ≡ g.process)
  unbound-Frame wire g (reply, g1) unbound (process, channel, inl answers) = (answers.0, process)
  unbound-Frame wire g (reply, g1) unbound (process, channel, inr i) = let bound = i.bound in cc

  -- Where ct_eq is equality, in a process that is not bound to the anchor no frames change the
  -- installed keystore.
  pub unbound_frames_install_nothing :
      (wires : List (List ℕ)) (g : Gateway W)
      → IsCtEq b.crypto
      → is_anti_rollback_configured g.process ≡ false
      → (run_frames wires g).installed ≡ g.installed
  unfolding run_frames
  unbound_frames_install_nothing [] g ct unbound = refl
  unbound_frames_install_nothing (wire ∷ wires) g ct unbound =
      let (same, process) =
        unbound-Frame wire g (handle_agent_gateway_frame b host wire g) unbound
          (handle_agent_gateway_frame_sound b host wire g ct) in
      unbound_frames_install_nothing wires (handle_agent_gateway_frame b host wire g).1 ct
        (ap is_anti_rollback_configured process ∙ unbound)
      ∙ same
