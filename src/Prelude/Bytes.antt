-- ===== src/Prelude/Bytes.antt =====
-- Byte strings: equality, the order of `[u8]`, and big-endian numbers (`to_be_bytes`,
-- `from_be_bytes`).
use Prim.Native.Nat.{ℕ, zero, suc, ◌+◌, ◌*◌, ◌/◌, ◌%◌, ◌^◌, ◌<◌}
use mathlib.Core.Path.{◌≡◌, refl, sym, ap, ◌∙◌}
use mathlib.Core.Bool.{Bool, true, false, ◌&&◌}
use mathlib.Core.List.{List, [], ◌∷◌}
use native.Mathlib.Omega.{arith}
use native.Mathlib.Nat.{
  div-add-mod, mod-lt, mod-eq_of_lt, pow-suc, one-le-pow, add-mul-div_right, add-mul-mod_self_right,
  div-eq_of_lt, mul-add-div_right, add_comm,
}
use d_hsm.Prelude.Tests.{ltb, ◌==◌, if◌then◌else◌}
use d_hsm.Prelude.Lists.{length, All}

abbrev pub IsByte : ℕ → Type 0
IsByte b = b < 256

abbrev pub IsU64 : ℕ → Type 0
IsU64 v = v < 2 ^ 64

-- `==` of two byte slices.
unfoldable pub bytes_eq : List ℕ → List ℕ → Bool
bytes_eq [] [] = true
bytes_eq [] (y ∷ ys) = false
bytes_eq (x ∷ xs) [] = false
bytes_eq (x ∷ xs) (y ∷ ys) = x == y && bytes_eq xs ys

pub bytes_eq_sound : (xs ys : List ℕ) → bytes_eq xs ys ≡ true → xs ≡ ys
unfolding bytes_eq
bytes_eq_sound [] [] h = refl
bytes_eq_sound [] (y ∷ ys) h = cc
bytes_eq_sound (x ∷ xs) [] h = cc
bytes_eq_sound (x ∷ xs) (y ∷ ys) h = ground (arith, bytes_eq_sound xs ys)

pub bytes_eq_refl : (xs : List ℕ) → bytes_eq xs xs ≡ true
unfolding bytes_eq
bytes_eq_refl [] = refl
bytes_eq_refl (x ∷ xs) = ground (arith, bytes_eq_refl xs)

-- `<` of two byte slices: lexicographic, a proper prefix first.
unfoldable pub bytes_lt : List ℕ → List ℕ → Bool
bytes_lt [] [] = false
bytes_lt [] (y ∷ ys) = true
bytes_lt (x ∷ xs) [] = false
bytes_lt (x ∷ xs) (y ∷ ys) = if ltb x y then true else if x == y then bytes_lt xs ys else false

-- The big-endian number of a byte string.
unfoldable pub be_value : List ℕ → ℕ
be_value [] = 0
be_value (x ∷ xs) = x * 256 ^ length xs + be_value xs

-- The `n` low bytes of `v`, most significant first.
unfoldable pub be_bytes : ℕ → ℕ → List ℕ
be_bytes zero v = []
be_bytes (suc n) v = (v / 256 ^ n % 256) ∷ be_bytes n v

pub length-be_bytes : (n v : ℕ) → length (be_bytes n v) ≡ n
unfolding be_bytes
length-be_bytes zero v = refl
length-be_bytes (suc n) v = ap suc (length-be_bytes n v)

pub be_bytes-IsByte : (n v : ℕ) → All IsByte (be_bytes n v)
unfolding be_bytes
be_bytes-IsByte zero v = tt
be_bytes-IsByte (suc n) v = (omega arith, be_bytes-IsByte n v)

pub pow_pos : (n : ℕ) → 0 < 256 ^ n
pow_pos n = one-le-pow n 256 (omega arith)

top_digit : (x v p : ℕ) → x < 256 → v < p → x * p + v < p * 256
top_digit x v p hx hv = grind arith

pub be_value-lt : (xs : List ℕ) → All IsByte xs → be_value xs < 256 ^ length xs
unfolding be_value
be_value-lt [] h = omega arith
be_value-lt (x ∷ xs) (hx, hxs) =
    let p = 256 ^ length xs in
    rw (pow-suc 256 (length xs)) (top_digit x (be_value xs) p hx (be_value-lt xs hxs))

mod_split : (v p : ℕ) → 0 < p → v / p % 256 * p + v % p ≡ v % (p * 256)
mod_split v p h =
    let low = v / p % 256 * p + v % p in
    let small : low < p * 256 = grind (arith, mod-lt v h) in
    let whole : v ≡ low + v / p / 256 * (p * 256) =
      omega (arith, div-add-mod v p, ap (λ (t : ℕ). t * p) (div-add-mod (v / p) 256)) in
    sym (mod-eq_of_lt small)
    ∙ sym (add-mul-mod_self_right low (v / p / 256) (p * 256))
    ∙ ap (λ t. t % (p * 256)) (sym whole)

pub be_value-be_bytes : (n v : ℕ) → be_value (be_bytes n v) ≡ v % 256 ^ n
unfolding be_value be_bytes
be_value-be_bytes zero v = omega arith
be_value-be_bytes (suc n) v =
    rw (pow-suc 256 n, length-be_bytes n v, be_value-be_bytes n v)
      (mod_split v (256 ^ n) (pow_pos n))

pub be_value-be_bytes_lt : (n v : ℕ) → v < 256 ^ n → be_value (be_bytes n v) ≡ v
be_value-be_bytes_lt n v h = be_value-be_bytes n v ∙ mod-eq_of_lt h

-- Whole multiples of `256 ^ n` do not reach the `n` low bytes.
be_bytes-add : (n v k : ℕ) → be_bytes n (v + k * 256 ^ n) ≡ be_bytes n v
unfolding be_bytes
be_bytes-add zero v k = refl
be_bytes-add (suc n) v k =
    let p = 256 ^ n in
    let shift : k * 256 ^ suc n ≡ k * 256 * p =
      omega (arith, ap (λ (t : ℕ). k * t) (pow-suc 256 n)) in
    let digit : (v + k * 256 * p) / p % 256 ≡ v / p % 256 =
      omega (arith, add-mul-div_right v (k * 256) (pow_pos n)) in
    rw (shift, digit, be_bytes-add n v (k * 256))

pub be_bytes-be_value : (xs : List ℕ) → All IsByte xs → be_bytes (length xs) (be_value xs) ≡ xs
unfolding be_bytes be_value
be_bytes-be_value [] h = refl
be_bytes-be_value (x ∷ xs) (hx, hxs) =
    let p = 256 ^ length xs in
    let w = be_value xs in
    let small : w < p = be_value-lt xs hxs in
    let digit : (x * p + w) / p % 256 ≡ x =
      omega (arith, mul-add-div_right (pow_pos (length xs)) x w, div-eq_of_lt small) in
    rw (digit, add_comm (x * p) w, be_bytes-add (length xs) w x, be_bytes-be_value xs hxs)

pub pow_suc : (n : ℕ) → 256 ^ suc n ≡ 256 ^ n * 256
pow_suc n = pow-suc 256 n
