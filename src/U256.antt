-- ===== src/U256.antt =====
-- u256.rs: checked arithmetic on 32-byte big-endian numbers. The loops run from the last byte, as a
-- recursion that treats the tail of the list first; it returns the bytes and the carry.
pub mod Exact
use d_hsm.Prelude.{
  ℕ, ◌+◌, ◌-◌, ◌*◌, ◌/◌, ◌%◌, List, [], ◌∷◌, ◌++◌, Option, none, some, ltb, ◌==◌, if◌then◌else◌,
  length, replicate,
}
use d_hsm.Prelude.Bytes.{be_bytes}

unfoldable pub from_u64 : ℕ → List ℕ
from_u64 x = replicate 24 0 ++ be_bytes 8 x

unfoldable pub from_minimal_be : List ℕ → Option (List ℕ)
from_minimal_be bytes =
    if ltb 32 (length bytes) then none else some (replicate (32 - length bytes) 0 ++ bytes)

-- `sum` is at most 511 and fits the `u16`.
unfoldable pub add_loop : List ℕ → List ℕ → List ℕ × ℕ
add_loop [] b = ([], 0)
add_loop (x ∷ a) [] = ([], 0)
add_loop (x ∷ a) (y ∷ b) =
    let (out, carry) = add_loop a b in let sum = x + y + carry in ((sum % 256) ∷ out, sum / 256)

unfoldable pub checked_add : List ℕ → List ℕ → Option (List ℕ)
unfolding add_loop
checked_add a b = let (out, carry) = add_loop a b in if carry == 0 then some out else none

-- `prod` stays below 2^73 and fits the `u128`.
unfoldable pub mul_loop : List ℕ → ℕ → List ℕ × ℕ
mul_loop [] m = ([], 0)
mul_loop (x ∷ a) m =
    let (out, carry) = mul_loop a m in let prod = x * m + carry in ((prod % 256) ∷ out, prod / 256)

unfoldable pub checked_mul_u64 : List ℕ → ℕ → Option (List ℕ)
unfolding mul_loop
checked_mul_u64 a m = let (out, carry) = mul_loop a m in if carry == 0 then some out else none
