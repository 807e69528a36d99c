-- ===== src/Cbor/Access.antt =====
-- The accessors of agent_cbor.rs on a decoded map.
use d_hsm.Prelude.{
  ℕ, ◌-◌, ◌^◌, List, [], ◌∷◌, Bool, true, false, not, ◌&&◌, ◌||◌, Option, none, some, bit_or, ltb,
  leb, ◌==◌, if◌then◌else◌, ◌>>=◌, ◌>>◌, require, length,
}
use Prim.Native.Nat.{bit_and}
use d_hsm.Cbor.Value.{Value, Entries, unsigned, bytes, end, entry}

abbrev pub as_u64 : Value → Option ℕ
as_u64 (unsigned n) = some n
as_u64 _ = none

abbrev pub as_bytes : Value → Option (List ℕ)
as_bytes (bytes b) = some b
as_bytes _ = none

abbrev pub as_bytes_n : ℕ → Value → Option (List ℕ)
as_bytes_n n v = do b ← as_bytes v; require (length b == n); some b

abbrev pub as_bytes32 : Value → Option (List ℕ)
as_bytes32 v = as_bytes_n 32 v

abbrev pub leading_zero : List ℕ → Bool
leading_zero [] = false
leading_zero (b ∷ bs) = b == 0

abbrev pub as_u256_minimal_be : Value → Option (List ℕ)
as_u256_minimal_be v = do
  b ← as_bytes v
  require (not (ltb 32 (length b)))
  require (not (leading_zero b))
  some b

abbrev pub has_key : Value → ℕ → Bool
has_key (unsigned n) k = n == k
has_key _ k = false

unfoldable pub map_get : Entries → ℕ → Option Value
map_get end key = none
map_get (entry k v es) key = if has_key k key then some v else map_get es key

-- The loop of `check_strict_keys`; `seen` is the bit set.
unfoldable pub strict_keys_from : (ℕ → Bool) → ℕ → Entries → Bool
strict_keys_from allowed seen end = true
strict_keys_from allowed seen (entry k v es) = elim (as_u64 k) [
  | none ↦ false
  | some n ↦
      if not (allowed n) || not (leb 1 n && leb n 64)
      then false
      else if not (bit_and seen (2 ^ (n - 1)) == 0)
      then false
      else strict_keys_from allowed (bit_or seen (2 ^ (n - 1))) es
]

unfoldable pub check_strict_keys : Entries → (ℕ → Bool) → Bool
unfolding strict_keys_from
check_strict_keys m allowed = strict_keys_from allowed 0 m

-- `map_get(map, k).and_then(read)`.
abbrev pub read_at {ℓ} : {A : Type ℓ} → (Value → Option A) → Entries → ℕ → Option A
read_at read m k = map_get m k >>= read

-- `as_u64` and `u8::try_from`.
abbrev pub as_u8 : Value → Option ℕ
as_u8 v = do n ← as_u64 v; require (leb n 255); some n
