-- ===== src/U256/Exact.antt =====
-- The operations of u256.rs on the numbers that their bytes stand for.
use native.Mathlib.Nat.{div-add-mod}
use d_hsm.Prelude.{
  ℕ, suc, zero, ◌+◌, ◌-◌, ◌*◌, ◌/◌, ◌%◌, ◌^◌, ◌≤◌, ◌<◌, ◌≡◌, refl, ap, sym, ◌∙◌, List, [], ◌∷◌,
  ◌++◌, none, some, arith, ltb, ◌==◌, if◌then◌else◌, length, length-append, length-replicate,
  replicate, All, All-append, subst, lt→ltb, ltb_of_le, le_of_ltb, ltb→lt, eq_of_some, false,
  Bool-cases, inl, inr, unless-some,
}
use d_hsm.Prelude.Bytes.{
  IsByte, IsU64, bytes_lt, be_value, be_bytes, be_value-lt, be_bytes-be_value, length-be_bytes,
  be_bytes-IsByte, be_value-be_bytes_lt, pow_suc,
}
use d_hsm.U256.{add_loop, mul_loop, checked_add, checked_mul_u64, from_u64, from_minimal_be}

-- A `[u8; 32]`.
pub record IsWord (a : List ℕ) : Type 0 where
  pub len : length a ≡ 32
  pub each : All IsByte a

low_digits : (x y v w p : ℕ) → x < y → v < p → x * p + v < y * p + w
low_digits x y v w p h k = grind arith

-- On byte strings of one length the slice order is the order of the numbers.
pub bytes_lt-be_value :
    (xs ys : List ℕ)
    → length xs ≡ length ys
    → All IsByte xs
    → All IsByte ys
    → bytes_lt xs ys ≡ ltb (be_value xs) (be_value ys)
unfolding bytes_lt be_value
bytes_lt-be_value [] [] e h k = refl
bytes_lt-be_value [] (y ∷ ys) e h k = absurd (omega arith)
bytes_lt-be_value (x ∷ xs) [] e h k = absurd (omega arith)
bytes_lt-be_value (x ∷ xs) (y ∷ ys) e h k =
    let p = 256 ^ length ys in
    let same : length xs ≡ length ys = omega arith in
    let v = be_value xs in
    let w = be_value ys in
    let hv : v < p = rw (← same) (be_value-lt xs h.1) in
    let hw : w < p = be_value-lt ys k.1 in
    rw same (
      ground
        (arith, bytes_lt-be_value xs ys same h.1 k.1, low_digits x y v w p, low_digits y x w v p))

pub bounded : (out : List ℕ) → length out ≡ 32 → All IsByte out → be_value out < 2 ^ 256
bounded out len each = subst (λ n. be_value out < 256 ^ n) len (be_value-lt out each)

bytes_of : (out : List ℕ) → length out ≡ 32 → All IsByte out → be_bytes 32 (be_value out) ≡ out
bytes_of out len each =
    subst (λ n. be_bytes n (be_value out) ≡ out) len (be_bytes-be_value out each)

-- The bytes and the carry of a loop, as a number.
pub record AddsUp (out : List ℕ) (carry total n : ℕ) : Type 0 where
  pub len : length out ≡ n
  pub each : All IsByte out
  pub total_eq : be_value out + carry * 256 ^ n ≡ total

-- One more digit in front.
carried :
    (d carry total n : ℕ) (out : List ℕ)
    → AddsUp out carry total n
    → AddsUp (((d + carry) % 256) ∷ out) ((d + carry) / 256) (d * 256 ^ n + total) (suc n)
unfolding be_value
carried d carry total n out h = record {
  len = omega (arith, h.len);
  each = (omega arith, h.each);
  total_eq =
      let s = d + carry in
      let p = 256 ^ n in
      rw (h.len, pow_suc n) (omega (arith, h.total_eq, ap (λ (t : ℕ). t * p) (div-add-mod s 256)));
}

add_loop-AddsUp :
    (a b : List ℕ)
    → length a ≡ length b
    → AddsUp (add_loop a b).0 (add_loop a b).1 (be_value a + be_value b) (length a)
unfolding add_loop be_value
add_loop-AddsUp [] [] e = record { len = refl; each = tt; total_eq = omega arith }
add_loop-AddsUp [] (y ∷ b) e = absurd (omega arith)
add_loop-AddsUp (x ∷ a) [] e = absurd (omega arith)
add_loop-AddsUp (x ∷ a) (y ∷ b) e =
    let same : length a ≡ length b = omega arith in
    let step = carried (x + y) _ _ (length a) _ (add_loop-AddsUp a b same) in
    record {
      len = step.len;
      each = step.each;
      total_eq = rw (← same) (omega (arith, step.total_eq));
    }

mul_loop-AddsUp :
    (a : List ℕ) (m : ℕ) → AddsUp (mul_loop a m).0 (mul_loop a m).1 (be_value a * m) (length a)
unfolding mul_loop be_value
mul_loop-AddsUp [] m = record { len = refl; each = tt; total_eq = omega arith }
mul_loop-AddsUp (x ∷ a) m =
    let step = carried (x * m) _ _ (length a) _ (mul_loop-AddsUp a m) in
    record { len = step.len; each = step.each; total_eq = omega (arith, step.total_eq) }

checked_exact :
    (out : List ℕ) (carry total : ℕ)
    → AddsUp out carry total 32
    → (if carry == 0 then some out else none)
      ≡ (if ltb total (2 ^ 256) then some (be_bytes 32 total) else none)
checked_exact out zero total h =
    let whole : be_value out ≡ total = omega (arith, h.total_eq) in
    let small : total < 2 ^ 256 = omega (arith, whole, bounded out h.len h.each) in
    rw (lt→ltb total (2 ^ 256) small, ← whole, bytes_of out h.len h.each)
checked_exact out (suc carry) total h =
    let over : 2 ^ 256 ≤ total = omega (arith, h.total_eq) in
    rw (ltb_of_le total (2 ^ 256) over) (ground arith)

-- Of two 32-byte words `checked_add` is the sum below 2^256, and `none` from there on.
pub checked_add_exact :
    (a b : List ℕ)
    → IsWord a
    → IsWord b
    → checked_add a b ≡ (
        if ltb (be_value a + be_value b) (2 ^ 256)
        then some (be_bytes 32 (be_value a + be_value b))
        else none)
unfolding checked_add
checked_add_exact a b ha hb =
    let sums = add_loop-AddsUp a b (omega (arith, ha.len, hb.len)) in
    checked_exact _ _ _ (subst (AddsUp _ _ _) ha.len sums)

-- Of a 32-byte word and a number `checked_mul_u64` is the product below 2^256, and `none` from
-- there on.
pub checked_mul_u64_exact :
    (a : List ℕ) (m : ℕ)
    → IsWord a
    → checked_mul_u64 a m
      ≡ (if ltb (be_value a * m) (2 ^ 256) then some (be_bytes 32 (be_value a * m)) else none)
unfolding checked_mul_u64
checked_mul_u64_exact a m ha =
    checked_exact _ _ _ (subst (AddsUp _ _ _) ha.len (mul_loop-AddsUp a m))

zeros : (n : ℕ) (b : List ℕ) → be_value (replicate n 0 ++ b) ≡ be_value b
unfolding be_value
zeros zero b = refl
zeros (suc n) b = omega (arith, zeros n b)

zeros-IsByte : (n : ℕ) → All IsByte (replicate n 0)
zeros-IsByte zero = tt
zeros-IsByte (suc n) = (omega arith, zeros-IsByte n)

pub from_u64-IsWord : (x : ℕ) → IsWord (from_u64 x)
unfolding from_u64
from_u64-IsWord x = record {
  len = omega (arith, length-append (replicate 24 0) (be_bytes 8 x), length-be_bytes 8 x);
  each = All-append IsByte (replicate 24 0) (be_bytes 8 x) (zeros-IsByte 24) (be_bytes-IsByte 8 x);
}

pub from_u64-value : (x : ℕ) → IsU64 x → be_value (from_u64 x) ≡ x
unfolding from_u64
from_u64-value x h = zeros 24 (be_bytes 8 x) ∙ be_value-be_bytes_lt 8 x h

pub IsWord-be_bytes :
    (n : ℕ) → n < 2 ^ 256 → IsWord (be_bytes 32 n) × (be_value (be_bytes 32 n) ≡ n)
IsWord-be_bytes n h = (
  record { len = length-be_bytes 32 n; each = be_bytes-IsByte 32 n },
  be_value-be_bytes_lt 32 n h,
)

-- The word of a string of at most 32 bytes keeps its number; a longer string is refused.
pub from_minimal_be_exact :
    (b : List ℕ)
    → All IsByte b
    → from_minimal_be b ≡ (if ltb 32 (length b) then none else some (be_bytes 32 (be_value b)))
unfolding from_minimal_be
from_minimal_be_exact b hb = elim (Bool-cases (ltb 32 (length b))) [
  | inl long ↦ rw long
  | inr short ↦
      let n = 32 - length b in
      let w = replicate n 0 ++ b in
      let fits = le_of_ltb 32 (length b) short in
      let len : length w ≡ 32 =
        omega (arith, length-append (replicate n 0) b, length-replicate {A = ℕ} n 0, fits) in
      let each : All IsByte w = All-append IsByte (replicate n 0) b (zeros-IsByte n) hb in
      rw (short, ← zeros n b, bytes_of w len each)
]

padded-IsWord :
    (b : List ℕ)
    → All IsByte b
    → ltb 32 (length b) ≡ false
    → IsWord (replicate (32 - length b) 0 ++ b)
padded-IsWord b hb short =
    let n = 32 - length b in
    record {
      len = omega (
        arith,
        length-append (replicate n 0) b,
        length-replicate {A = ℕ} n 0,
        le_of_ltb 32 (length b) short,
      );
      each = All-append IsByte (replicate n 0) b (zeros-IsByte n) hb;
    }

pub from_minimal_be-some :
    (b : List ℕ) {w : List ℕ}
    → All IsByte b
    → from_minimal_be b ≡ some w
    → IsWord w × (be_value w ≡ be_value b)
unfolding from_minimal_be
from_minimal_be-some b hb h =
    let (short, e) = unless-some (ltb 32 (length b)) (some (replicate (32 - length b) 0 ++ b)) h in
    subst (λ w. IsWord w × (be_value w ≡ be_value b)) (eq_of_some e)
      (padded-IsWord b hb short, zeros (32 - length b) b)

some-IsWord :
    (total : ℕ) {c : List ℕ}
    → (if ltb total (2 ^ 256) then some (be_bytes 32 total) else none) ≡ some c
    → IsWord c × (be_value c ≡ total)
some-IsWord total {c} h = elim (Bool-cases (ltb total (2 ^ 256))) [
  | inl small ↦
      let same =
        eq_of_some (subst (λ b. (if b then some (be_bytes 32 total) else none) ≡ some c) small h) in
      subst (λ w. IsWord w × (be_value w ≡ total)) same
        (IsWord-be_bytes total (ltb→lt total (2 ^ 256) small))
  | inr big ↦ cc (big, h)
]

-- What a result of the checked operations tells.
pub checked_add-some :
    (a b : List ℕ) {c : List ℕ}
    → IsWord a
    → IsWord b
    → checked_add a b ≡ some c
    → IsWord c × (be_value c ≡ be_value a + be_value b)
checked_add-some a b ha hb h =
    some-IsWord (be_value a + be_value b) (sym (checked_add_exact a b ha hb) ∙ h)

pub checked_mul-some :
    (a : List ℕ) (m : ℕ) {c : List ℕ}
    → IsWord a
    → checked_mul_u64 a m ≡ some c
    → IsWord c × (be_value c ≡ be_value a * m)
checked_mul-some a m ha h = some-IsWord (be_value a * m) (sym (checked_mul_u64_exact a m ha) ∙ h)

-- `x > y` is false.
pub le_of_bytes_lt :
    (x y : List ℕ) → IsWord x → IsWord y → bytes_lt x y ≡ false → be_value y ≤ be_value x
le_of_bytes_lt x y hx hy h =
    let order = bytes_lt-be_value x y (omega (arith, hx.len, hy.len)) hx.each hy.each in
    le_of_ltb (be_value x) (be_value y) (sym order ∙ h)

pub bytes_lt_of_le :
    (x y : List ℕ) → IsWord x → IsWord y → be_value y ≤ be_value x → bytes_lt x y ≡ false
bytes_lt_of_le x y hx hy h =
    bytes_lt-be_value x y (omega (arith, hx.len, hy.len)) hx.each hy.each ∙ ltb_of_le _ _ h
