-- ===== src/Prelude/Attempt.antt =====
-- A result with an error type of its own, for the components whose errors are not
-- `KeystoreError`s.
use mathlib.Core.Path.{◌≡◌, refl}
use mathlib.Core.Bool.{Bool, true, false}
use mathlib.Core.Option.{Option, none, some}

-- `Result<A, E>`.
pub data Attempt {ℓ κ} (E : Type ℓ) (A : Type κ) : Type (ℓ ⊔ κ) where
  done : A → Attempt E A
  failed : E → Attempt E A

infixl 5 ◌>>=◌ ◌>>◌
abbrev pub ◌>>=◌ {ℓ κ ι} :
    {E : Type ℓ} {A : Type κ} {B : Type ι} → Attempt E A → (A → Attempt E B) → Attempt E B
done a >>= f = f a
failed e >>= f = failed e

abbrev pub ◌>>◌ {ℓ ι} : {E : Type ℓ} {B : Type ι} → Attempt E (Unit {0}) → Attempt E B → Attempt E B
m >> k = m >>= λ _. k

-- `if !test { return Err(e) }`.
abbrev pub ensure {ℓ} : {E : Type ℓ} → Bool → E → Attempt E (Unit {0})
ensure true e = done tt
ensure false e = failed e

-- `o.ok_or(e)`.
abbrev pub ok_or {ℓ κ} : {E : Type ℓ} {A : Type κ} → Option A → E → Attempt E A
ok_or none e = failed e
ok_or (some a) e = done a

-- `r.map_err(f)`.
abbrev pub map_err {ℓ κ ι} :
    {E : Type ℓ} {F : Type κ} {A : Type ι} → (E → F) → Attempt E A → Attempt F A
map_err f (done a) = done a
map_err f (failed e) = failed (f e)

pub >>=-eq-done {ℓ κ ι} :
    {E : Type ℓ} {A : Type κ} {B : Type ι} (m : Attempt E A) (f : A → Attempt E B) {b : B}
    → (m >>= f) ≡ done b
    → (a : A) × (m ≡ done a) × (f a ≡ done b)
>>=-eq-done (done a) f h = (a, refl, h)
>>=-eq-done (failed e) f h = cc

pub ensure-done {ℓ κ} :
    {E : Type ℓ} {B : Type κ} (b : Bool) (e : E) (m : Attempt E B) {x : B}
    → (ensure b e >> m) ≡ done x
    → (b ≡ true) × (m ≡ done x)
ensure-done true e m h = (refl, h)
ensure-done false e m h = cc

pub ok_or-done {ℓ κ} :
    {E : Type ℓ} {A : Type κ} (o : Option A) (e : E) {a : A} → ok_or o e ≡ done a → o ≡ some a
ok_or-done none e h = cc
ok_or-done (some a) e h = cc

pub map_err-done {ℓ κ ι} :
    {E : Type ℓ} {F : Type κ} {A : Type ι} (f : E → F) (m : Attempt E A) {a : A}
    → map_err f m ≡ done a
    → m ≡ done a
map_err-done f (done a) h = cc
map_err-done f (failed e) h = cc

pub done_inv {ℓ κ} :
    {E : Type ℓ} {A : Type κ} {a b : A} → ◌≡◌ {A = Attempt E A} (done a) (done b) → a ≡ b
done_inv h = cc

pub ensure-true {ℓ} :
    {E : Type ℓ} (b : Bool) (e : E) {u : Unit {0}} → ensure b e ≡ done u → b ≡ true
ensure-true true e h = refl
ensure-true false e h = cc
