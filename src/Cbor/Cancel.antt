-- ===== src/Cbor/Cancel.antt =====
-- The writers `put_uint`, `put_text` and `put_bytes` of agent_capability.rs, one after another.
use d_hsm.Prelude.{
  ℕ, ◌<◌, ◌≡◌, sym, ap, ◌∙◌, List, [], ◌++◌, append_assoc, some, arith, length, take, drop,
  take-append_self, drop-append_self, eq_of_some, append-nil,
}
use d_hsm.Prelude.Bytes.{IsU64}
use d_hsm.Cbor.Encode.{put_uint, put_text, put_bytes}
use d_hsm.Cbor.Parser.{typed_head}
use d_hsm.Cbor.Typed.{typed_head-put_uint}

pub uint_cancel :
    (major v w : ℕ) (xs ys : List ℕ)
    → major < 8
    → IsU64 v
    → IsU64 w
    → put_uint major v ++ xs ≡ put_uint major w ++ ys
    → (v ≡ w) × (xs ≡ ys)
uint_cancel major v w xs ys m hv hw e =
    let read : some (v, xs) ≡ some (w, ys) =
      sym (typed_head-put_uint major v xs m hv)
      ∙ ap (typed_head major) e
      ∙ typed_head-put_uint major w ys m hw in
    let pairs : (v, xs) ≡ (w, ys) = eq_of_some read in (ap (λ p. p.0) pairs, ap (λ p. p.1) pairs)

counted_cancel :
    (major : ℕ) (b d xs ys : List ℕ)
    → major < 8
    → IsU64 (length b)
    → IsU64 (length d)
    → put_uint major (length b) ++ (b ++ xs) ≡ put_uint major (length d) ++ (d ++ ys)
    → (b ≡ d) × (xs ≡ ys)
counted_cancel major b d xs ys m hb hd e =
    let (len, rest) = uint_cancel major (length b) (length d) (b ++ xs) (d ++ ys) m hb hd e in
    (
      sym (take-append_self b xs)
          ∙ ap (take (length b)) rest
          ∙ ap (λ n. take n (d ++ ys)) len
          ∙ take-append_self d ys,
      sym (drop-append_self b xs)
          ∙ ap (drop (length b)) rest
          ∙ ap (λ n. drop n (d ++ ys)) len
          ∙ drop-append_self d ys,
    )

bytes_cancel :
    (b d xs ys : List ℕ)
    → IsU64 (length b)
    → IsU64 (length d)
    → put_bytes b ++ xs ≡ put_bytes d ++ ys
    → (b ≡ d) × (xs ≡ ys)
unfolding put_bytes
bytes_cancel b d xs ys hb hd e = counted_cancel 2 b d xs ys (omega arith) hb hd (
    sym (append_assoc (put_uint 2 (length b)) b xs) ∙ e ∙ append_assoc (put_uint 2 (length d)) d ys)

text_cancel :
    (b d xs ys : List ℕ)
    → IsU64 (length b)
    → IsU64 (length d)
    → put_text b ++ xs ≡ put_text d ++ ys
    → (b ≡ d) × (xs ≡ ys)
unfolding put_text
text_cancel b d xs ys hb hd e = counted_cancel 3 b d xs ys (omega arith) hb hd (
    sym (append_assoc (put_uint 3 (length b)) b xs) ∙ e ∙ append_assoc (put_uint 3 (length d)) d ys)

-- A map key and the uint, bytes or text behind it.
pub key_uint_cancel :
    (k v w : ℕ) (xs ys : List ℕ)
    → IsU64 k
    → IsU64 v
    → IsU64 w
    → put_uint 0 k ++ (put_uint 0 v ++ xs) ≡ put_uint 0 k ++ (put_uint 0 w ++ ys)
    → (v ≡ w) × (xs ≡ ys)
key_uint_cancel k v w xs ys hk hv hw e =
    uint_cancel 0 v w xs ys (omega arith) hv hw
      (uint_cancel 0 k k (put_uint 0 v ++ xs) (put_uint 0 w ++ ys) (omega arith) hk hk e).1

pub key_bytes_cancel :
    (k : ℕ) (b d xs ys : List ℕ)
    → IsU64 k
    → IsU64 (length b)
    → IsU64 (length d)
    → put_uint 0 k ++ (put_bytes b ++ xs) ≡ put_uint 0 k ++ (put_bytes d ++ ys)
    → (b ≡ d) × (xs ≡ ys)
key_bytes_cancel k b d xs ys hk hb hd e =
    bytes_cancel b d xs ys hb hd
      (uint_cancel 0 k k (put_bytes b ++ xs) (put_bytes d ++ ys) (omega arith) hk hk e).1

pub key_text_cancel :
    (k : ℕ) (b d xs ys : List ℕ)
    → IsU64 k
    → IsU64 (length b)
    → IsU64 (length d)
    → put_uint 0 k ++ (put_text b ++ xs) ≡ put_uint 0 k ++ (put_text d ++ ys)
    → (b ≡ d) × (xs ≡ ys)
key_text_cancel k b d xs ys hk hb hd e =
    text_cancel b d xs ys hb hd
      (uint_cancel 0 k k (put_text b ++ xs) (put_text d ++ ys) (omega arith) hk hk e).1

pub domain_cancel : (dom xs ys : List ℕ) → dom ++ xs ≡ dom ++ ys → xs ≡ ys
domain_cancel dom xs ys e =
    sym (drop-append_self dom xs) ∙ ap (drop (length dom)) e ∙ drop-append_self dom ys

pub last_bytes :
    (k : ℕ) (b d : List ℕ)
    → IsU64 k
    → put_uint 0 k ++ put_bytes b ≡ put_uint 0 k ++ put_bytes d
    → IsU64 (length b)
    → IsU64 (length d)
    → b ≡ d
last_bytes k b d hk e hb hd =
    (key_bytes_cancel k b d [] [] hk hb hd (
      ap (λ l. put_uint 0 k ++ l) (append-nil (put_bytes b))
      ∙ e
      ∙ sym (ap (λ l. put_uint 0 k ++ l) (append-nil (put_bytes d))))).0
