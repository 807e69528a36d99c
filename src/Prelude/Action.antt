-- ===== src/Prelude/Action.antt =====
-- A fallible step that also moves a world on: `Result<A, E>` of a function that calls the
-- generator or the transport. An error keeps the world that it was reached in.
use mathlib.Core.Path.{◌≡◌, refl, ap}
use d_hsm.Prelude.Attempt.{Attempt, done, failed, map_err}

abbrev pub Action {ℓ κ ι} : Type ℓ → Type κ → Type ι → Type (ℓ ⊔ κ ⊔ ι)
Action W E A = W → Attempt E A × W

abbrev pub lift {ℓ κ ι} : {W : Type ℓ} {E : Type κ} {A : Type ι} → Attempt E A → Action W E A
lift m w = (m, w)

abbrev pub continue_with {ℓ κ ι υ} :
    {W : Type ℓ} {E : Type κ} {A : Type ι} {B : Type υ}
    → (A → Action W E B)
    → Attempt E A × W
    → Attempt E B × W
continue_with f (done a, w) = f a w
continue_with f (failed e, w) = (failed e, w)

infixl 5 ◌>>=◌ ◌>>◌
abbrev pub ◌>>=◌ {ℓ κ ι υ} :
    {W : Type ℓ} {E : Type κ} {A : Type ι} {B : Type υ}
    → Action W E A
    → (A → Action W E B)
    → Action W E B
m >>= f = λ w. continue_with f (m w)

abbrev pub ◌>>◌ {ℓ κ υ} :
    {W : Type ℓ} {E : Type κ} {B : Type υ} → Action W E (Unit {0}) → Action W E B → Action W E B
m >> k = m >>= λ _. k

-- Inversion of a chain that succeeded.
pub >>=-eq-done {ℓ κ ι υ} :
    {W : Type ℓ} {E : Type κ} {A : Type ι} {B : Type υ} (r : Attempt E A × W) (f : A → Action W E B)
    {b : B} {w' : W}
    → continue_with f r ≡ (done b, w')
    → (a : A) × (w : W) × (r ≡ (done a, w)) × (f a w ≡ (done b, w'))
>>=-eq-done (done a, w) f h = (a, w, refl, h)
>>=-eq-done (failed e, w) f h = cc

abbrev value_or {ℓ κ} : {E : Type ℓ} {A : Type κ} → A → Attempt E A → A
value_or a (done b) = b
value_or a (failed e) = a

-- An error that was mapped was no success.
pub map_err_world {ℓ κ ι υ} :
    {W : Type ℓ} {E : Type κ} {F : Type ι} {A : Type υ} (f : E → F) (p : Attempt E A × W) {a : A}
    {w' : W}
    → ◌≡◌ {A = Attempt F A × W} (map_err f p.0, p.1) (done a, w')
    → p ≡ (done a, w')
map_err_world f (done x, v) h = ap (λ q. (done (value_or x q.0), q.1)) h
map_err_world f (failed e, v) h = cc
