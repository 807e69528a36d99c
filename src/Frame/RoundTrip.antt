-- ===== src/Frame/RoundTrip.antt =====
-- `decode_message` of lib.rs after `encode_message`.
use d_hsm.Prelude.{
  ℕ, ◌+◌, ◌%◌, ◌^◌, ◌≤◌, ◌≡◌, refl, sym, ap, ◌∙◌, subst, List, [], ◌∷◌, ◌++◌, true, false, not,
  some, ltb, ltb_of_le, le_of_ltb, not-eq_true, ◌==◌, ==_iff, length, arith, All, ◌↔◌,
}
use d_hsm.Prelude.Bytes.{be_bytes, be_value, be_value-be_bytes_lt, be_bytes-be_value, IsByte}
use d_hsm.Prelude.Attempt.{done, ensure, ensure-true, ok_or, ok_or-done, >>=-eq-done, done_inv}
use d_hsm.Frame.{
  MessageType, get_measurement, sign_authorization_ticket, arm_for_production, get_status,
  agent_gateway, agent_boot_relay, agent_anchor_marks_relay, agent_anchor_commit_relay,
  sign_block_root, too_short, length_mismatch, invalid_version, unknown_message_type,
  message_too_large, FramedMessage, protocol_version, type_byte, type_of_byte, max_message_size,
  encode_message_raw, encode_message, decode_message,
}

type_of_byte-type_byte : (t : MessageType) → type_of_byte (type_byte t) ≡ some t
type_of_byte-type_byte get_measurement = refl
type_of_byte-type_byte sign_authorization_ticket = refl
type_of_byte-type_byte arm_for_production = refl
type_of_byte-type_byte get_status = refl
type_of_byte-type_byte agent_gateway = refl
type_of_byte-type_byte agent_boot_relay = refl
type_of_byte-type_byte agent_anchor_marks_relay = refl
type_of_byte-type_byte agent_anchor_commit_relay = refl
type_of_byte-type_byte sign_block_root = refl

-- A frame of four length bytes, the version, a type and a payload.
decode_framed :
    (a b c d : ℕ) (t : MessageType) (payload : List ℕ)
    → be_value (a ∷ b ∷ c ∷ d ∷ []) ≡ 2 + length payload
    → 2 + length payload ≤ max_message_size
    → decode_message (a ∷ b ∷ c ∷ d ∷ protocol_version ∷ type_byte t ∷ payload)
      ≡ done (record { version = protocol_version; msg_type = t; payload = payload })
unfolding decode_message
decode_framed a b c d t payload h fits =
    let long : ltb (length (a ∷ b ∷ c ∷ d ∷ protocol_version ∷ type_byte t ∷ payload)) 6 ≡ false =
      ltb_of_le _ 6 (omega arith) in
    let small : ltb max_message_size (2 + length payload) ≡ false = ltb_of_le _ _ fits in
    let same : (length (a ∷ b ∷ c ∷ d ∷ protocol_version ∷ type_byte t ∷ payload)
          == 4 + (2 + length payload))
        ≡ true =
      grind arith in
    rw (h, long, small, same, type_of_byte-type_byte t) refl

-- What `encode_message` makes, `decode_message` reads back.
decode_message-encode_message :
    (t : MessageType) (payload wire : List ℕ)
    → encode_message t payload ≡ done wire
    → decode_message wire
      ≡ done (record { version = protocol_version; msg_type = t; payload = payload })
unfolding encode_message encode_message_raw be_bytes
decode_message-encode_message t payload wire h =
    let total_len = 2 + length payload in
    let fits = not (ltb max_message_size total_len) in
    let (u, e0, h0) = >>=-eq-done (ensure fits (message_too_large (total_len % 2 ^ 32))) _ h in
    let small =
      le_of_ltb max_message_size total_len
        (not-eq_true _ (ensure-true fits (message_too_large (total_len % 2 ^ 32)) e0)) in
    subst
      (λ w.
        decode_message w
        ≡ done (record { version = protocol_version; msg_type = t; payload = payload }))
      (done_inv h0)
      (decode_framed _ _ _ _ t payload (be_value-be_bytes_lt 4 total_len (omega arith)) small)

type_byte-type_of_byte : (b : ℕ) (t : MessageType) → type_of_byte b ≡ some t → type_byte t ≡ b
type_byte-type_of_byte b t h = ground arith

-- A byte string that has the four length bytes, the version and the type.
six_bytes :
    (bytes : List ℕ)
    → 6 ≤ length bytes
    → (a b c d v k : ℕ) × (rest : List ℕ) × (bytes ≡ a ∷ b ∷ c ∷ d ∷ v ∷ k ∷ rest)
six_bytes (a ∷ b ∷ c ∷ d ∷ v ∷ k ∷ rest) h = (a, b, c, d, v, k, rest, refl)
six_bytes [] h = absurd (omega arith)
six_bytes (a ∷ []) h = absurd (omega arith)
six_bytes (a ∷ b ∷ []) h = absurd (omega arith)
six_bytes (a ∷ b ∷ c ∷ []) h = absurd (omega arith)
six_bytes (a ∷ b ∷ c ∷ d ∷ []) h = absurd (omega arith)
six_bytes (a ∷ b ∷ c ∷ d ∷ v ∷ []) h = absurd (omega arith)

encode_framed :
    (a b c d v k : ℕ) (rest : List ℕ) (m : FramedMessage)
    → All IsByte (a ∷ b ∷ c ∷ d ∷ v ∷ k ∷ rest)
    → decode_message (a ∷ b ∷ c ∷ d ∷ v ∷ k ∷ rest) ≡ done m
    → encode_message m.msg_type m.payload ≡ done (a ∷ b ∷ c ∷ d ∷ v ∷ k ∷ rest)
unfolding decode_message encode_message encode_message_raw
encode_framed a b c d v k rest m all h =
    let bytes = a ∷ b ∷ c ∷ d ∷ v ∷ k ∷ rest in
    let total_len = be_value (a ∷ b ∷ c ∷ d ∷ []) in
    let fits = not (ltb max_message_size total_len) in
    let (u0, e0, h0) = >>=-eq-done (ensure (not (ltb (length bytes) 6)) too_short) _ h in
    let (u1, e1, h1) = >>=-eq-done (ensure fits (message_too_large total_len)) _ h0 in
    let (u2, e2, h2) = >>=-eq-done (ensure (length bytes == 4 + total_len) length_mismatch) _ h1 in
    let (u3, e3, h3) = >>=-eq-done (ensure (v == protocol_version) (invalid_version v)) _ h2 in
    let (t, e4, h4) = >>=-eq-done (ok_or (type_of_byte k) (unknown_message_type k)) _ h3 in
    let sum : 2 + length rest ≡ total_len =
      let exact = (==_iff (length bytes) (4 + total_len)).0 (ensure-true _ length_mismatch e2) in
      omega arith in
    let small : not (ltb max_message_size (2 + length rest)) ≡ true =
      rw sum (ensure-true fits (message_too_large total_len) e1) in
    let first : v ≡ 1 = (==_iff v protocol_version).0 (ensure-true _ (invalid_version v) e3) in
    let kind =
      type_byte-type_of_byte k t (ok_or-done (type_of_byte k) (unknown_message_type k) e4) in
    let prefix =
      be_bytes-be_value (a ∷ b ∷ c ∷ d ∷ []) (all.0, (all.1.0, (all.1.1.0, (all.1.1.1.0, tt)))) in
    let same = done_inv h4 in
    subst (λ f. encode_message f.msg_type f.payload ≡ done bytes) same
      (rw (small, sum)
        (ap (λ l. done (l ++ (protocol_version ∷ type_byte t ∷ rest))) prefix
          ∙ ap (λ x. done (a ∷ b ∷ c ∷ d ∷ protocol_version ∷ x ∷ rest)) kind
          ∙ ap (λ x. done (a ∷ b ∷ c ∷ d ∷ x ∷ k ∷ rest)) (sym first)))

-- The framing is canonical: a byte string that is accepted is what the sender makes of its type
-- and its payload.
encode_message-decode_message :
    (bytes : List ℕ) (m : FramedMessage)
    → All IsByte bytes
    → decode_message bytes ≡ done m
    → encode_message m.msg_type m.payload ≡ done bytes
unfolding decode_message
encode_message-decode_message bytes m all h =
    let (u, e, h0) = >>=-eq-done (ensure (not (ltb (length bytes) 6)) too_short) _ h in
    let long = le_of_ltb _ 6 (not-eq_true _ (ensure-true _ too_short e)) in
    let (a, b, c, d, v, k, rest, shape) = six_bytes bytes long in
    subst (λ w. encode_message m.msg_type m.payload ≡ done w) (sym shape)
      (encode_framed a b c d v k rest m (subst (All IsByte) shape all)
        (subst (λ w. decode_message w ≡ done m) shape h))

-- From a string of bytes `decode_message` returns a message exactly when its version is the
-- protocol's and `encode_message` makes that string of its type and its payload.
pub decode_message_iff :
    (bytes : List ℕ) (m : FramedMessage)
    → All IsByte bytes
    → (decode_message bytes ≡ done m)
      ↔ ((m.version ≡ protocol_version) × (encode_message m.msg_type m.payload ≡ done bytes))
decode_message_iff bytes m all = (forth, back)
  where
    back :
        (m.version ≡ protocol_version) × (encode_message m.msg_type m.payload ≡ done bytes)
        → decode_message bytes ≡ done m
    back (version, h) =
        decode_message-encode_message m.msg_type m.payload bytes h
        ∙ ap (λ v. done (record m { version = v })) (sym version)

    forth :
        decode_message bytes ≡ done m
        → (m.version ≡ protocol_version) × (encode_message m.msg_type m.payload ≡ done bytes)
    forth h =
        let made = encode_message-decode_message bytes m all h in
        let read = decode_message-encode_message m.msg_type m.payload bytes made in
        (ap (λ f. f.version) (done_inv (sym h ∙ read)), made)
