-- ===== src/Dispatch/Handled/Bytes.antt =====
-- The byte strings of a decoded payload of agent_dispatch.rs.
use d_hsm.Prelude.{
  ℕ, ◌≡◌, List, some, if◌then◌else◌, All, Bool-cases, inl, inr, subst, ltb, not, length, require,
  >>=-eq-some, eq_of_some,
}
use d_hsm.Prelude.Bytes.{IsByte}
use d_hsm.Cbor.Value.{Value, Entries, bytes, end, entry}
use d_hsm.Cbor.Access.{map_get, read_at, as_bytes, as_u256_minimal_be, has_key, leading_zero}

abbrev pub ByteString : Value → Type 0
ByteString (bytes b) = All IsByte b
ByteString _ = Unit

abbrev pub ByteStrings : Entries → Type 0
ByteStrings end = Unit
ByteStrings (entry k v es) = ByteString v × ByteStrings es

map_get-ByteString :
    (m : Entries) (key : ℕ) (v : Value) → ByteStrings m → map_get m key ≡ some v → ByteString v
unfolding map_get
map_get-ByteString end key v hm h = cc
map_get-ByteString (entry k w es) key v hm h = elim (Bool-cases (has_key k key)) [
  | inl here ↦
      subst ByteString
        (eq_of_some (subst (λ t. (if t then some w else map_get es key) ≡ some v) here h)) hm.0
  | inr there ↦
      map_get-ByteString es key v hm.1
        (subst (λ t. (if t then some w else map_get es key) ≡ some v) there h)
]

as_bytes-IsByte : (v : Value) (b : List ℕ) → ByteString v → as_bytes v ≡ some b → All IsByte b
as_bytes-IsByte (bytes x) b hv h = subst (All IsByte) (eq_of_some h) hv
as_bytes-IsByte _ b hv h = cc

minimal-IsByte :
    (v : Value) (b : List ℕ) → ByteString v → as_u256_minimal_be v ≡ some b → All IsByte b
minimal-IsByte v b hv h =
    let (x, e, h1) = >>=-eq-some (as_bytes v) _ h in
    let (u, wide, h2) = >>=-eq-some (require (not (ltb 32 (length x)))) _ h1 in
    let (u2, zero, h3) = >>=-eq-some (require (not (leading_zero x))) _ h2 in
    subst (All IsByte) (eq_of_some h3) (as_bytes-IsByte v x hv e)

pub read-minimal_IsByte :
    (m : Entries) (key : ℕ) (b : List ℕ)
    → ByteStrings m
    → read_at as_u256_minimal_be m key ≡ some b
    → All IsByte b
read-minimal_IsByte m key b hm h =
    let (v, e, h1) = >>=-eq-some (map_get m key) as_u256_minimal_be h in
    minimal-IsByte v b (map_get-ByteString m key v hm e) h1
