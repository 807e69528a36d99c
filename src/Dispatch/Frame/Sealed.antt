-- ===== src/Dispatch/Frame/Sealed.antt =====
-- `commit_before_emit` of agent_dispatch.rs: what a blob that comes out of it stands for.
use d_hsm.Prelude.{ℕ, ◌≡◌, ap, subst, List, Bool, some}
use d_hsm.Prelude.Attempt.{done, ensure, done_inv, map_err, map_err-done, ok_or-done}
use d_hsm.Prelude.Action.{>>=-eq-done, map_err_world}
use d_hsm.Keystore.Types.{KeystoreBody}
use d_hsm.Keystore.Seal.Body.{seal_body}
use d_hsm.Keystore.Seal.Drawn.{Blob, seal_body-Blob}
use d_hsm.Keystore.Marks.{compute_local_marks_digest}
use d_hsm.Anchor.Commit.{verify_commit_ack_bytes}
use d_hsm.Capability.Parse.{seal_failed}
use d_hsm.Relay.Types.{encode, ack, transport}
use d_hsm.Relay.Encode.{encode_anchor_commit_request}
use d_hsm.Relay.Commit.{commit_request, channel_leg, run_anchor_commit}
use d_hsm.Dispatch.Frame.{
  Host, Build, proposed, draw_commit_nonce, commit_candidate_to_anchor, root_leg, seal_leg,
  seal_and_commit,
}

module _ {W : Type 0} (b : Build) (host : Host W) where
  -- The acknowledgement of a candidate under the request's identifier.
  abbrev pub Acknowledged : KeystoreBody → List ℕ → List ℕ → List ℕ → Type 0
  Acknowledged y request_id nonce answer =
      verify_commit_ack_bytes b.crypto answer
        (record {
          nonce = nonce;
          epoch = y.freshness_epoch;
          structural_version = y.structural_version;
          marks_digest = compute_local_marks_digest b.crypto.sha3_256 y;
          request_id = request_id;
        })
        y.config
      ≡ done tt

  -- A commit of the candidate: the nonce was drawn, the request went out on the channel, and the
  -- answer to it acknowledges the candidate's state under the request's identifier.
  pub record Commit (y : KeystoreBody) (request_id : List ℕ) : Type 0 where
    pub nonce : List ℕ
    pub before_draw : W
    pub drawn : (host.getrandom 32 before_draw).0 ≡ some nonce
    pub frame : List ℕ
    pub asked :
        encode_anchor_commit_request
          (commit_request (proposed b.crypto y nonce request_id) y.config)
        ≡ done frame
    pub answer : List ℕ
    pub before_trip : W
    pub answered : (host.round_trip frame before_trip).0 ≡ done answer
    pub acknowledged : Acknowledged y request_id nonce answer

  -- The blob is the candidate's under a provisioning root, and the candidate was committed.
  pub record Committed (y : KeystoreBody) (request_id measurement sealed : List ℕ) : Type 0 where
    pub root : List ℕ
    pub before_root : W
    pub rooted : host.resolve_provisioning_root before_root ≡ some root
    pub written : Blob b.crypto b.sealer host.getrandom y root measurement sealed
    pub commit : Commit y request_id

  run_anchor_commit-Commit :
      (y : KeystoreBody) (nonce request_id : List ℕ) (w w' v : W) (u : Unit {0})
      → (host.getrandom 32 v).0 ≡ some nonce
      → run_anchor_commit b.crypto host.round_trip (proposed b.crypto y nonce request_id) y.config w
        ≡ (done u, w')
      → Commit y request_id
  unfolding run_anchor_commit
  run_anchor_commit-Commit y nonce request_id w w' v u drawn h =
      let request = commit_request (proposed b.crypto y nonce request_id) y.config in
      let (frame, w0, e0, h0) =
        >>=-eq-done (map_err (λ _. encode) (encode_anchor_commit_request request), w) _ h in
      let (answer, w1, e1, h1) = >>=-eq-done (channel_leg b.crypto host.round_trip frame w0) _ h0 in
      record {
        nonce = nonce;
        before_draw = v;
        drawn = drawn;
        frame = frame;
        asked = map_err-done (λ _. encode) _ (ap (λ p. p.0) e0);
        answer = answer;
        before_trip = w0;
        answered = map_err-done transport _ (ap (λ p. p.0) e1);
        acknowledged = map_err-done ack _ (ap (λ p. p.0) h1);
      }

  commit_candidate_to_anchor-Commit :
      (channel : Bool) (y : KeystoreBody) (request_id : List ℕ) (w w' : W) (u : Unit {0})
      → commit_candidate_to_anchor b host channel y request_id w ≡ (done u, w')
      → Commit y request_id
  unfolding commit_candidate_to_anchor
  commit_candidate_to_anchor-Commit channel y request_id w w' u h =
      let (nonce, w0, e0, h0) = >>=-eq-done (draw_commit_nonce b host w) _ h in
      let (u1, w1, e1, h1) = >>=-eq-done (ensure channel seal_failed, w0) _ h0 in
      let commit = proposed b.crypto y nonce request_id in
      run_anchor_commit-Commit y nonce request_id w1 w' w u
        (ok_or-done ((host.getrandom 32 w).0) seal_failed (ap (λ p. p.0) e0))
        (map_err_world (λ _. seal_failed)
          (run_anchor_commit b.crypto host.round_trip commit y.config w1) h1)

  pub seal_and_commit-Committed :
      (channel : Bool) (y : KeystoreBody) (request_id measurement sealed : List ℕ) (w w' : W)
      → seal_and_commit b host channel y request_id measurement w ≡ (done sealed, w')
      → Committed y request_id measurement sealed
  unfolding seal_and_commit
  seal_and_commit-Committed channel y request_id measurement sealed w w' h =
      let (root, w0, e0, h0) = >>=-eq-done (root_leg b host w) _ h in
      let (blob, w1, e1, h1) = >>=-eq-done (seal_leg b host y root measurement w0) _ h0 in
      let (u2, w2, e2, h2) =
        >>=-eq-done (commit_candidate_to_anchor b host channel y request_id w1) _ h1 in
      let made = seal_body-Blob b.crypto b.sealer host.getrandom y root measurement blob w0 w1 (
        map_err_world (λ _. seal_failed)
          (seal_body b.crypto b.sealer host.getrandom y root measurement w0) e1) in
      subst (Committed y request_id measurement) (done_inv (ap (λ p. p.0) h2)) (record {
        root = root;
        before_root = w;
        rooted = ok_or-done (host.resolve_provisioning_root w) seal_failed (ap (λ p. p.0) e0);
        written = made;
        commit = commit_candidate_to_anchor-Commit channel y request_id w1 w2 u2 e2;
      })
