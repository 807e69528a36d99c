-- ===== src/Cbor/Typed.antt =====
-- The typed reads of agent_cbor.rs (`typed_head`, `uint`, `bstr`, `bstr_exact`, `text`) beside the
-- writers of agent_capability.rs.
use d_hsm.Prelude.{
  ℕ, ◌≤◌, ◌<◌, ◌≡◌, sym, ap, ◌∙◌, subst, List, ◌++◌, append_assoc, true, not, some, arith, ltb,
  ◌==◌, ==_iff, >>=-eq-some, require, require-true, eq_of_some, length, All, All-split, ltb_of_le,
  le_of_ltb, not-eq_true, eq_refl,
}
use d_hsm.Prelude.Bytes.{IsByte, IsU64}
use d_hsm.Cbor.Utf8.{is_utf8}
use d_hsm.Cbor.Encode.{put_uint, put_text, put_bytes}
use d_hsm.Cbor.Parser.{Reader, head, take_n, typed_head, uint, bstr, bstr_exact, text_max}
use d_hsm.Cbor.Head.{head-put_uint, head_sound, take_n-append, take_n_sound}

-- Every value that `read` returns satisfies `P`, and `write` of it is what was read.
abbrev pub Exact {ℓ κ} : {A : Type ℓ} → Reader A → (A → List ℕ) → (A → Type κ) → Type (ℓ ⊔ κ)
Exact {A} read write P =
    (s : List ℕ) (a : A) (rest : List ℕ)
    → All IsByte s
    → read s ≡ some (a, rest)
    → (s ≡ write a ++ rest) × P a × All IsByte rest

pub typed_head-put_uint :
    (major val : ℕ) (rest : List ℕ)
    → major < 8
    → IsU64 val
    → typed_head major (put_uint major val ++ rest) ≡ some (val, rest)
unfolding typed_head
typed_head-put_uint major val rest hm hv = rw (head-put_uint major val rest hm hv, eq_refl major)

pub uint-put_uint :
    (val : ℕ) (rest : List ℕ) → IsU64 val → uint (put_uint 0 val ++ rest) ≡ some (val, rest)
unfolding uint
uint-put_uint val rest h = typed_head-put_uint 0 val rest (omega arith) h

pub bstr-put_bytes :
    (max : ℕ) (b rest : List ℕ)
    → length b ≤ max
    → IsU64 (length b)
    → bstr max (put_bytes b ++ rest) ≡ some (b, rest)
unfolding bstr put_bytes
bstr-put_bytes max b rest h u = rw (
  append_assoc (put_uint 2 (length b)) b rest,
  typed_head-put_uint 2 (length b) (b ++ rest) (omega arith) u,
  ltb_of_le max (length b) h,
  take_n-append b rest,
)

pub bstr_exact-put_bytes :
    (n : ℕ) (b rest : List ℕ)
    → length b ≡ n
    → IsU64 n
    → bstr_exact n (put_bytes b ++ rest) ≡ some (b, rest)
unfolding bstr_exact put_bytes
bstr_exact-put_bytes n b rest h u = rw (
  append_assoc (put_uint 2 (length b)) b rest,
  typed_head-put_uint 2 (length b) (b ++ rest) (omega arith) (omega arith),
  ← h,
  eq_refl (length b),
  take_n-append b rest,
)

pub text_max-put_text :
    (max : ℕ) (b rest : List ℕ)
    → length b ≤ max
    → IsU64 (length b)
    → is_utf8 b ≡ true
    → text_max max (put_text b ++ rest) ≡ some (b, rest)
unfolding text_max put_text
text_max-put_text max b rest h u v = rw (
  append_assoc (put_uint 3 (length b)) b rest,
  typed_head-put_uint 3 (length b) (b ++ rest) (omega arith) u,
  ltb_of_le max (length b) h,
  take_n-append b rest,
  v,
)

pub typed_head_sound : (major : ℕ) → Exact (typed_head major) (put_uint major) IsU64
unfolding typed_head
typed_head_sound major s val rest hs h =
    let (((m, arg), r), first, h1) = >>=-eq-some (head s) _ h in
    let (u, same, h2) = >>=-eq-some (require (m == major)) _ h1 in
    let (split, hm, ha) = head_sound s hs first in
    let hr = (All-split IsByte (put_uint m arg) r split hs).1 in
    subst (λ p. (s ≡ put_uint major p.0 ++ p.1) × IsU64 p.0 × All IsByte p.1) (eq_of_some h2)
      (
        subst (λ k. s ≡ put_uint k arg ++ r) ((==_iff m major).0 (require-true _ same)) split,
        ha,
        hr,
      )

pub uint_sound : Exact uint (put_uint 0) IsU64
unfolding uint
uint_sound = typed_head_sound 0

counted_sound :
    (major n : ℕ) (r : List ℕ) {s b rest : List ℕ}
    → s ≡ put_uint major n ++ r
    → All IsByte r
    → take_n n r ≡ some (b, rest)
    → (s ≡ (put_uint major (length b) ++ b) ++ rest) × (length b ≡ n) × All IsByte rest
counted_sound major n r {s} {b} {rest} split hr taken =
    let (inner, len) = take_n_sound n r taken in
    (
      split
          ∙ ap (λ t. put_uint major n ++ t) inner
          ∙ subst (λ k. put_uint major k ++ (b ++ rest) ≡ (put_uint major (length b) ++ b) ++ rest)
              len (sym (append_assoc (put_uint major (length b)) b rest)),
      len,
      (All-split IsByte b rest inner hr).1,
    )

pub bstr_sound : (max : ℕ) → Exact (bstr max) put_bytes (λ b. (length b ≤ max) × IsU64 (length b))
unfolding bstr put_bytes
bstr_sound max s b rest hs h =
    let ((len, r), first, h1) = >>=-eq-some (typed_head 2 s) _ h in
    let (u, fits, taken) = >>=-eq-some (require (not (ltb max len))) _ h1 in
    let (split, hl, hr) = typed_head_sound 2 s len r hs first in
    let (whole, same, rest_bytes) = counted_sound 2 len r split hr taken in
    let small = le_of_ltb max len (not-eq_true _ (require-true _ fits)) in
    (whole, (omega (arith, same, small), omega (arith, same, hl)), rest_bytes)

pub bstr_exact_sound : (n : ℕ) → Exact (bstr_exact n) put_bytes (λ b. length b ≡ n)
unfolding bstr_exact put_bytes
bstr_exact_sound n s b rest hs h =
    let ((len, r), first, h1) = >>=-eq-some (typed_head 2 s) _ h in
    let (u, fits, taken) = >>=-eq-some (require (len == n)) _ h1 in
    let (split, hl, hr) = typed_head_sound 2 s len r hs first in
    let same = (==_iff len n).0 (require-true _ fits) in
    counted_sound 2 n r (subst (λ k. s ≡ put_uint 2 k ++ r) same split) hr taken

pub text_max_sound :
    (max : ℕ)
    → Exact (text_max max) put_text (λ b. (length b ≤ max) × IsU64 (length b) × (is_utf8 b ≡ true))
unfolding text_max put_text
text_max_sound max s b rest hs h =
    let ((len, r), first, h1) = >>=-eq-some (typed_head 3 s) _ h in
    let (u, fits, h2) = >>=-eq-some (require (not (ltb max len))) _ h1 in
    let ((b', r'), taken, h3) = >>=-eq-some (take_n len r) _ h2 in
    let (u', valid, h4) = >>=-eq-some (require (is_utf8 b')) _ h3 in
    let (split, hl, hr) = typed_head_sound 3 s len r hs first in
    let (whole, same, rest_bytes) = counted_sound 3 len r split hr taken in
    let small = le_of_ltb max len (not-eq_true _ (require-true _ fits)) in
    subst
      (λ p.
        (s ≡ (put_uint 3 (length p.0) ++ p.0) ++ p.1)
        × ((length p.0 ≤ max) × IsU64 (length p.0) × (is_utf8 p.0 ≡ true))
        × All IsByte p.1)
      (eq_of_some h4)
      (
        whole,
        (omega (arith, same, small), omega (arith, same, hl), require-true _ valid),
        rest_bytes,
      )
