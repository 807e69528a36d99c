-- ===== src/Boot/AdoptExact.antt =====
-- `execute_adopt_forward` of agent_boot.rs: what an adopted body is.
use d_hsm.Prelude.{
  ℕ, ◌≡◌, refl, sym, ap, ◌∙◌, subst, List, ◌++◌, true, Option, some, ◌==◌, All, All-split,
  All-append_right, length, require, ◌>>=◌, ◌>>◌, >>=-eq-some, eq_of_some,
}
use d_hsm.Prelude.Bytes.{IsByte}
use d_hsm.Prelude.Attempt.{
  done, ok_or, map_err, >>=-eq-done, ensure-done, ok_or-done, map_err-done, done_inv,
}
use d_hsm.Crypto.{Crypto, IsCtEq}
use d_hsm.Cbor.Encode.{put_uint, put_text, put_bytes}
use d_hsm.Cbor.Parser.{typed_head, uint, bstr, bstr_exact, text_max, is_empty, max_str_len}
use d_hsm.Cbor.Typed.{uint_sound, typed_head_sound, bstr_sound, bstr_exact_sound, text_max_sound}
use d_hsm.Envelope.Fields.{field, field_sound}
use d_hsm.Envelope.Marks.{DecodedMarks, strict_decode_marks_payload}
use d_hsm.Envelope.MarksExact.{IsMarks, marks_wire}
use d_hsm.Envelope.MarksSound.{decode-IsMarks_sound}
use d_hsm.Envelope.Signed.{MarksRespFields, strict_decode_marks_response}
use d_hsm.Keystore.Types.{KeystoreBody, Result, ok, err, max_counter_entries}
use d_hsm.Keystore.Validate.{validate}
use d_hsm.Keystore.Marks.{
  seeded, seed_marks_forward, encode_marks_payload, compute_local_marks_digest, marks_domain,
}
use d_hsm.Keystore.Marks.Sorted.{encode_marks_payload-seeded}
use d_hsm.Anchor.Types.{AnchorState}
use d_hsm.Anchor.Marks.{verify_marks_response_bytes, max_marks_payload_len}
use d_hsm.Anchor.Accepted.{AcceptedMarks, verify_marks_response_bytes_sound}
use d_hsm.Boot.Adopt.{
  execute_adopt_forward, marks_dominate_local, seeded_ok, marks_verify, marks_decode, hash_mismatch,
  belt_regression,
}

written-IsByte :
    (s b rest : List ℕ) → All IsByte s → s ≡ (put_uint 0 6 ++ put_bytes b) ++ rest → All IsByte b
unfolding put_bytes
written-IsByte s b rest hs e =
    let (whole, after) = All-split IsByte (put_uint 0 6 ++ put_bytes b) rest e hs in
    let value : All IsByte (put_bytes b) =
      All-append_right IsByte (put_uint 0 6) (put_bytes b) whole in
    All-append_right IsByte (put_uint 2 (length b)) b value

-- The reads from key 6 on.
abbrev from_payload : ℕ → (List ℕ → List ℕ → MarksRespFields) → List ℕ → Option MarksRespFields
from_payload max build s = do
  (payload, s6) ← field 6 (bstr max) s
  (signature, s7) ← field 13 (bstr_exact 64) s6
  require (is_empty s7)
  some (build payload signature)

from_payload-IsByte :
    (max : ℕ) (build : List ℕ → List ℕ → MarksRespFields) (s : List ℕ) (f : MarksRespFields)
    → ((payload signature : List ℕ) → (build payload signature).marks_payload ≡ payload)
    → All IsByte s
    → from_payload max build s ≡ some f
    → All IsByte f.marks_payload
from_payload-IsByte max build s f puts hs h =
    let ((payload, s6), r6, h7) = >>=-eq-some (field 6 (bstr max) s) _ h in
    let ((sig, s7), r7, h8) = >>=-eq-some (field 13 (bstr_exact 64) s6) _ h7 in
    let (u, over, h9) = >>=-eq-some (require (is_empty s7)) _ h8 in
    let (e6, v6, b6) = field_sound 6 (bstr max) put_bytes _ (bstr_sound max) s payload s6 hs r6 in
    let same : payload ≡ f.marks_payload =
      sym (puts payload sig) ∙ ap (λ g. g.marks_payload) (eq_of_some h9) in
    subst (All IsByte) same (written-IsByte s payload s6 hs e6)

-- The payload of a message of bytes is bytes.
payload-IsByte :
    (wire : List ℕ) (max : ℕ) (f : MarksRespFields)
    → All IsByte wire
    → strict_decode_marks_response wire max ≡ some f
    → All IsByte f.marks_payload
unfolding strict_decode_marks_response
payload-IsByte wire max f hw h =
    let ((pairs, s0), r0, h0) = >>=-eq-some (typed_head 5 wire) _ h in
    let (u, seven, h1) = >>=-eq-some (require (pairs == 7)) _ h0 in
    let ((version, s1), r1, h2) = >>=-eq-some (field 1 uint s0) _ h1 in
    let ((chain, s2), r2, h3) = >>=-eq-some (field 2 uint s1) _ h2 in
    let ((env, s3), r3, h4) = >>=-eq-some (field 3 (text_max max_str_len) s2) _ h3 in
    let ((epoch, s4), r4, h5) = >>=-eq-some (field 4 uint s3) _ h4 in
    let ((nonce, s5), r5, h6) = >>=-eq-some (field 5 (bstr_exact 32) s4) _ h5 in
    let (e0, v0, b0) = typed_head_sound 5 wire pairs s0 hw r0 in
    let (e1, v1, b1) = field_sound 1 uint (put_uint 0) _ uint_sound s0 version s1 b0 r1 in
    let (e2, v2, b2) = field_sound 2 uint (put_uint 0) _ uint_sound s1 chain s2 b1 r2 in
    let (e3, v3, b3) =
      field_sound 3 (text_max max_str_len) put_text _ (text_max_sound max_str_len) s2 env s3 b2
        r3 in
    let (e4, v4, b4) = field_sound 4 uint (put_uint 0) _ uint_sound s3 epoch s4 b3 r4 in
    let (e5, v5, b5) =
      field_sound 5 (bstr_exact 32) put_bytes _ (bstr_exact_sound 32) s4 nonce s5 b4 r5 in
    from_payload-IsByte max
      (λ payload signature. record {
        version = version;
        chain_id = chain;
        environment_identifier = env;
        epoch = epoch;
        nonce = nonce;
        marks_payload = payload;
        signature = signature;
      })
      s5 f (λ payload signature. refl) b5 h6

-- An adopted body: the local one with the marks of a payload that the sealed root signed for this
-- nonce and epoch.
pub record Adopted (c : Crypto) (wire : List ℕ) (body : KeystoreBody) (st : AnchorState)
    (nonce : List ℕ) (body' : KeystoreBody) : Type 0 where
  pub message : MarksRespFields
  pub marks : DecodedMarks
  pub accepted : AcceptedMarks c wire nonce st.epoch body.config message.marks_payload message
  pub payload : message.marks_payload ≡ marks_wire marks
  pub well_formed : IsMarks max_counter_entries marks
  pub replaced : body' ≡ seeded body marks st.epoch
  pub valid : validate body' ≡ ok tt
  pub digest : c.sha3_256 (marks_domain ++ message.marks_payload) ≡ st.marks_digest
  pub re_encoded : encode_marks_payload body' ≡ message.marks_payload
  pub dominates : marks_dominate_local marks body ≡ true

seeded_ok-done : (r : Result (Unit {0})) {u : Unit {0}} → seeded_ok r ≡ done u → r ≡ ok tt
seeded_ok-done (ok v) h = refl
seeded_ok-done (err e) h = cc

-- Where `ct_eq` is equality and the message is a string of bytes, a body is adopted only when the
-- message is accepted for the nonce and the state's epoch, its payload is canonical, the body is the local one with the payload's marks in place, it validates,
-- the hash of the payload's own bytes is the digest that the anchor signed, and no local mark is
-- lowered.
pub execute_adopt_forward_sound :
    (c : Crypto) (wire : List ℕ) (body : KeystoreBody) (st : AnchorState) (nonce : List ℕ)
    (body' : KeystoreBody)
    → IsCtEq c
    → All IsByte wire
    → execute_adopt_forward c wire body st nonce ≡ done body'
    → Adopted c wire body st nonce body'
unfolding execute_adopt_forward seed_marks_forward compute_local_marks_digest
execute_adopt_forward_sound c wire body st nonce body' ct hw h =
    let (payload, e0, h0) =
      >>=-eq-done
        (map_err marks_verify (verify_marks_response_bytes c wire nonce st.epoch body.config)) _
        h in
    let (m, e1, h1) =
      >>=-eq-done (ok_or (strict_decode_marks_payload payload max_counter_entries) marks_decode) _
        h0 in
    let (u, e2, h2) = >>=-eq-done (seeded_ok (validate (seeded body m st.epoch))) _ h1 in
    let (e3, h3) =
      ensure-done
        (c.ct_eq (compute_local_marks_digest c.sha3_256 (seeded body m st.epoch)) st.marks_digest)
        hash_mismatch _ h2 in
    let (e4, h4) = ensure-done (marks_dominate_local m body) belt_regression _ h3 in
    let (f, acc) =
      verify_marks_response_bytes_sound c wire nonce st.epoch body.config payload
        (map_err-done marks_verify _ e0) in
    let bytes_of = payload-IsByte wire max_marks_payload_len f hw acc.decoded in
    let same : payload ≡ f.marks_payload = acc.carries in
    let read : strict_decode_marks_payload f.marks_payload max_counter_entries ≡ some m =
      subst (λ l. strict_decode_marks_payload l max_counter_entries ≡ some m) same
        (ok_or-done (strict_decode_marks_payload payload max_counter_entries) marks_decode e1) in
    let (wire_of, well) =
      decode-IsMarks_sound f.marks_payload max_counter_entries m bytes_of read in
    let again =
      encode_marks_payload-seeded body max_counter_entries m st.epoch well ∙ sym wire_of in
    subst (Adopted c wire body st nonce) (done_inv h4) (record {
      message = f;
      marks = m;
      accepted = subst (λ l. AcceptedMarks c wire nonce st.epoch body.config l f) same acc;
      payload = wire_of;
      well_formed = well;
      replaced = refl;
      valid = seeded_ok-done (validate (seeded body m st.epoch)) e2;
      digest =
          ap (λ l. c.sha3_256 (marks_domain ++ l)) (sym again) ∙ (ct.exact _ st.marks_digest).0 e3;
      re_encoded = again;
      dominates = e4;
    })
