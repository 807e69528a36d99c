-- ===== src/Envelope/Fields.antt =====
-- `if p.uint()? != n { return Err(()) }` and the read of the field behind it.
use d_hsm.Prelude.{
  ℕ, ◌≡◌, subst, List, ◌++◌, append_assoc, sym, ap, ◌∙◌, ◌==◌, ==_iff, ◌>>=◌, ◌>>◌, >>=-eq-some,
  require, require-true, eq_refl,
}
use d_hsm.Prelude.Bytes.{IsU64}
use d_hsm.Cbor.Encode.{put_uint}
use d_hsm.Cbor.Parser.{Reader, uint}
use d_hsm.Cbor.Typed.{Exact, uint-put_uint, uint_sound}

unfoldable pub field {ℓ} : {A : Type ℓ} → ℕ → Reader A → Reader A
unfolding uint
field n read s = do (k, s1) ← uint s; require (k == n); read s1

pub field-put {ℓ} :
    {A : Type ℓ} (n : ℕ) (read : Reader A) (rest : List ℕ)
    → IsU64 n
    → field n read (put_uint 0 n ++ rest) ≡ read rest
unfolding field
field-put n read rest h = rw (uint-put_uint n rest h, eq_refl n)

pub field_sound {ℓ κ} :
    {A : Type ℓ} (n : ℕ) (read : Reader A) (write : A → List ℕ) (P : A → Type κ)
    → Exact read write P
    → Exact (field n read) (λ a. put_uint 0 n ++ write a) P
unfolding field
field_sound n read write P exact s a rest hs h =
    let ((k, s1), first, h1) = >>=-eq-some (uint s) _ h in
    let (u, same, inner) = >>=-eq-some (require (k == n)) _ h1 in
    let (split, hk, hs1) = uint_sound s k s1 hs first in
    let (split1, p, hr) = exact s1 a rest hs1 inner in
    let key = (==_iff k n).0 (require-true _ same) in
    (
      subst (λ t. s ≡ put_uint 0 t ++ s1) key split
          ∙ ap (λ t. put_uint 0 n ++ t) split1
          ∙ sym (append_assoc (put_uint 0 n) (write a) rest),
      p,
      hr,
    )
