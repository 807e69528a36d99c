-- ===== src/Cbor/Head.antt =====
-- `head` of agent_cbor.rs beside `put_uint` of agent_capability.rs.
use Prim.Native.Nat.{bit_and}
use d_hsm.Prelude.{
  ℕ, zero, suc, ◌+◌, ◌*◌, ◌/◌, ◌%◌, ◌^◌, ◌≤◌, ◌<◌, bit_or, ◌≡◌, refl, subst, List, [], ◌∷◌, ◌++◌,
  Bool, true, ◌&&◌, some, arith, ◌==◌, ltb, leb, ==_iff, inl, inr, Bool-cases, ltb→lt, ◌>>=◌,
  >>=-eq-some, All-split, length, All, take-append_self, drop-append_self, length-append,
  take-append-drop, length-take,
}
use d_hsm.Prelude.Bytes.{
  IsByte, IsU64, be_bytes, length-be_bytes, be_value-be_bytes_lt, be_bytes-be_value, be_value-lt,
}
use d_hsm.Cbor.Encode.{put_uint}
use d_hsm.Cbor.Parser.{u8, take_n, wide, argument, head}

all_below : ℕ → (ℕ → Bool) → Bool
all_below zero p = true
all_below (suc n) p = p n && all_below n p

all_below_sound : (n : ℕ) (p : ℕ → Bool) → all_below n p ≡ true → (x : ℕ) → x < n → p x ≡ true
unfolding all_below
all_below_sound zero p h x lt = absurd (omega arith)
all_below_sound (suc n) p h x lt = ground (arith, all_below_sound n p (ground arith) x)

join_table : all_below 256 (λ b. bit_or (b / 32 * 32) (b % 32) == b) ≡ true
unfolding all_below
join_table = refl

mask_table : all_below 256 (λ b. bit_and b 0x1f == b % 32) ≡ true
unfolding all_below
mask_table = refl

-- The initial byte of an item, taken apart and put together.
pub bit_or-head :
    (major minor : ℕ)
    → major < 8
    → minor < 32
    → bit_or (major * 32 % 256) minor ≡ major * 32 + minor
bit_or-head major minor hm hn =
    let b = major * 32 + minor in
    let joined : bit_or (b / 32 * 32) (b % 32) ≡ b =
      (==_iff _ b).0 (all_below_sound 256 _ join_table b (omega arith)) in
    let high : b / 32 * 32 ≡ major * 32 % 256 = omega arith in
    let low : b % 32 ≡ minor = omega arith in cc (joined, high, low)

pub bit_and-head : (b : ℕ) → b < 256 → bit_and b 0x1f ≡ b % 32
bit_and-head b h = (==_iff _ (b % 32)).0 (all_below_sound 256 _ mask_table b h)

pub take_n-append : (xs ys : List ℕ) → take_n (length xs) (xs ++ ys) ≡ some (xs, ys)
unfolding take_n
take_n-append xs ys =
    ground (arith, length-append xs ys, take-append_self xs ys, drop-append_self xs ys)

-- A successful `take_n` splits the input.
pub take_n_sound :
    (n : ℕ) (s : List ℕ) {b rest : List ℕ}
    → take_n n s ≡ some (b, rest)
    → (s ≡ b ++ rest) × (length b ≡ n)
unfolding take_n
take_n_sound n s h = ground (arith, take-append-drop n s, length-take n s)

take_n-be_bytes :
    (n v : ℕ) (rest : List ℕ) → take_n n (be_bytes n v ++ rest) ≡ some (be_bytes n v, rest)
take_n-be_bytes n v rest =
    subst (λ k. take_n k (be_bytes n v ++ rest) ≡ some (be_bytes n v, rest)) (length-be_bytes n v)
      (take_n-append (be_bytes n v) rest)

wide-be_bytes :
    (n limit v : ℕ) (rest : List ℕ)
    → v < 256 ^ n
    → limit < v
    → wide n limit (be_bytes n v ++ rest) ≡ some (v, rest)
unfolding wide
wide-be_bytes n limit v rest hv hl =
    ground (arith, take_n-be_bytes n v rest, be_value-be_bytes_lt n v hv)

wide_sound :
    (n limit : ℕ) (s : List ℕ) {v : ℕ} {rest : List ℕ}
    → All IsByte s
    → wide n limit s ≡ some (v, rest)
    → (s ≡ be_bytes n v ++ rest) × (limit < v) × (v < 256 ^ n)
unfolding wide
wide_sound n limit s hs h =
    let ((b, r), taken, after) = >>=-eq-some (take_n n s) _ h in
    let (split, len) = take_n_sound n s taken in
    let bytes_b = (All-split IsByte b r split hs).0 in
    ground (arith, after, split, len, be_bytes-be_value b bytes_b, be_value-lt b bytes_b)

head_step :
    (major minor : ℕ) (s : List ℕ)
    → major < 8
    → minor < 32
    → head (bit_or (major * 32 % 256) minor ∷ s)
      ≡ (argument minor s >>= λ p. some ((major, p.0), p.1))
unfolding head u8
head_step major minor s hm hn =
    let joined = bit_or-head major minor hm hn in
    let low : bit_and (bit_or (major * 32 % 256) minor) 0x1f ≡ minor =
      omega
        (arith, joined, bit_and-head (bit_or (major * 32 % 256) minor) (omega (arith, joined))) in
    let high : bit_or (major * 32 % 256) minor / 32 ≡ major = omega (arith, joined) in
    rw (low, high)

-- The five forms of a written head, and the argument that each of them carries.
data Form (major val : ℕ) (written : List ℕ) : Type 0 where
  small : val < 24 → written ≡ bit_or (major * 32 % 256) val ∷ [] → Form major val written
  byte :
      24 ≤ val
      → val < 256
      → written ≡ bit_or (major * 32 % 256) 24 ∷ val ∷ []
      → Form major val written
  wider :
      (minor n limit : ℕ)
      → minor < 32
      → ((s : List ℕ) → argument minor s ≡ wide n limit s)
      → limit < val
      → val < 256 ^ n
      → written ≡ bit_or (major * 32 % 256) minor ∷ be_bytes n val
      → Form major val written

put_uint-Form : (major val : ℕ) → IsU64 val → Form major val (put_uint major val)
unfolding put_uint argument
put_uint-Form major val h = elim (Bool-cases (ltb val 24)) [
  | inl a ↦ small (ltb→lt val 24 a) (rw a)
  | inr a ↦ elim (Bool-cases (leb val 0xff)) [
    | inl b ↦ byte (ground arith) (ground arith) (rw (a, b))
    | inr b ↦ elim (Bool-cases (leb val 0xffff)) [
      | inl c ↦
          wider 25 2 0xff (omega arith) (λ s. refl) (ground arith) (ground arith) (rw (a, b, c))
      | inr c ↦ elim (Bool-cases (leb val 0xffff_ffff)) [
        | inl d ↦
            wider 26 4 0xffff (omega arith) (λ s. refl) (ground arith) (ground arith)
              (rw (a, b, c, d))
        | inr d ↦
            wider 27 8 0xffff_ffff (omega arith) (λ s. refl) (ground arith) (ground arith)
              (rw (a, b, c, d))
      ]
    ]
  ]
]

-- `head` reads back what `put_uint` wrote, and leaves what follows.
head-Form :
    (major val : ℕ) (written rest : List ℕ)
    → major < 8
    → Form major val written
    → head (written ++ rest) ≡ some ((major, val), rest)
head-Form major val written rest hm (small h e) =
    rw (e, head_step major val rest hm (omega arith)) (unfold argument in ground arith)
head-Form major val written rest hm (byte lo hi e) =
    rw (e, head_step major 24 (val ∷ rest) hm (omega arith)) (unfold argument u8 in ground arith)
head-Form major val written rest hm (wider minor n limit hk reads lo hi e) = rw (
  e,
  head_step major minor (be_bytes n val ++ rest) hm hk,
  reads,
  wide-be_bytes n limit val rest hi lo,
)

pub head-put_uint :
    (major val : ℕ) (rest : List ℕ)
    → major < 8
    → IsU64 val
    → head (put_uint major val ++ rest) ≡ some ((major, val), rest)
head-put_uint major val rest hm hv = head-Form major val _ rest hm (put_uint-Form major val hv)

-- Below, the form is known, and `put_uint` writes it.
wide_form :
    (major minor n limit : ℕ) (s : List ℕ) {val : ℕ} {rest : List ℕ}
    → (limit < val
        → val < 256 ^ n
        → put_uint major val ≡ bit_or (major * 32 % 256) minor ∷ be_bytes n val)
    → (limit < val → val < 256 ^ n → IsU64 val)
    → All IsByte s
    → wide n limit s ≡ some (val, rest)
    → (bit_or (major * 32 % 256) minor ∷ s ≡ put_uint major val ++ rest) × IsU64 val
wide_form major minor n limit s {val} {rest} form fits hs h =
    let (split, lo, hi) = wide_sound n limit s hs h in (rw (form lo hi, ← split), fits lo hi)

put_uint_small :
    (major val : ℕ) → val < 24 → put_uint major val ≡ bit_or (major * 32 % 256) val ∷ []
unfolding put_uint
put_uint_small major val h = ground arith

put_uint_byte :
    (major val : ℕ)
    → 24 ≤ val
    → val < 256
    → put_uint major val ≡ bit_or (major * 32 % 256) 24 ∷ val ∷ []
unfolding put_uint
put_uint_byte major val h k = ground arith

put_uint_u16 :
    (major val : ℕ)
    → 0xff < val
    → val < 256 ^ 2
    → put_uint major val ≡ bit_or (major * 32 % 256) 25 ∷ be_bytes 2 val
unfolding put_uint
put_uint_u16 major val h k = ground arith

put_uint_u32 :
    (major val : ℕ)
    → 0xffff < val
    → val < 256 ^ 4
    → put_uint major val ≡ bit_or (major * 32 % 256) 26 ∷ be_bytes 4 val
unfolding put_uint
put_uint_u32 major val h k = ground arith

put_uint_u64 :
    (major val : ℕ)
    → 0xffff_ffff < val
    → val < 256 ^ 8
    → put_uint major val ≡ bit_or (major * 32 % 256) 27 ∷ be_bytes 8 val
unfolding put_uint
put_uint_u64 major val h k = ground arith

byte_form :
    (major : ℕ) (s : List ℕ) {val : ℕ} {rest : List ℕ}
    → All IsByte s
    → argument 24 s ≡ some (val, rest)
    → (bit_or (major * 32 % 256) 24 ∷ s ≡ put_uint major val ++ rest) × IsU64 val
unfolding argument u8
byte_form major [] hs h = cc
byte_form major (b ∷ s) {val} hs h = ground (arith, put_uint_byte major b)

argument_sound :
    (major minor : ℕ) (s : List ℕ) {val : ℕ} {rest : List ℕ}
    → All IsByte s
    → argument minor s ≡ some (val, rest)
    → (bit_or (major * 32 % 256) minor ∷ s ≡ put_uint major val ++ rest) × IsU64 val
unfolding argument
argument_sound major minor s {val} {rest} hs h = elim (Bool-cases (ltb minor 24)) [
  | inl a ↦ ground (arith, put_uint_small major minor)
  | inr a ↦ elim (Bool-cases (minor == 24)) [
    | inl b ↦
        let e = (==_iff minor 24).0 b in
        rw e (byte_form major s hs (subst (λ k. argument k s ≡ some (val, rest)) e h))
    | inr b ↦ elim (Bool-cases (minor == 25)) [
      | inl c ↦
          let e = (==_iff minor 25).0 c in
          rw e (
            wide_form major 25 2 0xff s (put_uint_u16 major val) (λ lo hi. omega arith) hs
              (subst (λ k. argument k s ≡ some (val, rest)) e h))
      | inr c ↦ elim (Bool-cases (minor == 26)) [
        | inl d ↦
            let e = (==_iff minor 26).0 d in
            rw e (
              wide_form major 26 4 0xffff s (put_uint_u32 major val) (λ lo hi. omega arith) hs
                (subst (λ k. argument k s ≡ some (val, rest)) e h))
        | inr d ↦ elim (Bool-cases (minor == 27)) [
          | inl f ↦
              let e = (==_iff minor 27).0 f in
              rw e (
                wide_form major 27 8 0xffff_ffff s (put_uint_u64 major val) (λ lo hi. omega arith)
                  hs (subst (λ k. argument k s ≡ some (val, rest)) e h))
          | inr f ↦ cc (h, a, b, c, d, f)
        ]
      ]
    ]
  ]
]

-- Whatever `head` accepts is what `put_uint` writes.
pub head_sound :
    (s : List ℕ) {major val : ℕ} {rest : List ℕ}
    → All IsByte s
    → head s ≡ some ((major, val), rest)
    → (s ≡ put_uint major val ++ rest) × (major < 8) × IsU64 val
unfolding head u8
head_sound [] hs h = cc
head_sound (b ∷ s) {major} {val} {rest} (hb, hs) h =
    let ((arg, r), read, after) = >>=-eq-some (argument (bit_and b 0x1f) s) _ h in
    let (wrote, fits) = argument_sound (b / 32) (bit_and b 0x1f) s hs read in
    let joined : bit_or (b / 32 * 32 % 256) (bit_and b 0x1f) ≡ b =
      omega (arith, bit_or-head (b / 32) (bit_and b 0x1f), bit_and-head b hb) in
    ground (arith, after, wrote, fits, joined)
