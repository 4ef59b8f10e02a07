-- ===== src/Base/Values.antt =====
-- What holds of the value of a result, if there is one.
use bbserver.Base.Results.{Result, ok, err, ◌>>=◌}
use bbserver.Base.Tests.{if◌then◌else◌}
use mathlib.Core.Path.{◌≡◌, refl}
use mathlib.Core.Bool.{Bool, true, false}

abbrev pub Each {ℓ} : {A : Type ℓ} → (A → Type 0) → Result A → Type 0
Each P (ok a) = P a
Each P (err e) = Unit

pub bind-Each {ℓ κ} :
    {A : Type ℓ} {B : Type κ}
    → (P : A → Type 0) (Q : B → Type 0) (r : Result A) (f : A → Result B) → Each P r
    → ((a : A) → P a → Each Q (f a))
    → Each Q (r >>= f)
bind-Each P Q (ok a) f h k = k a h
bind-Each P Q (err e) f h k = tt

-- Nothing need hold of the first value.
pub bind_any {ℓ κ} :
    {A : Type ℓ} {B : Type κ}
    → (Q : B → Type 0) (r : Result A) (f : A → Result B) → ((a : A) → Each Q (f a))
    → Each Q (r >>= f)
bind_any Q (ok a) f k = k a
bind_any Q (err e) f k = tt

pub weaken {ℓ} :
    {A : Type ℓ} → (P Q : A → Type 0) (r : Result A) → ((a : A) → P a → Q a) → Each P r → Each Q r
weaken P Q (ok a) f h = f a h
weaken P Q (err e) f h = tt

pub if-Each {ℓ} :
    {A : Type ℓ}
    → (P : A → Type 0) (b : Bool) (x y : Result A) → Each P x
    → Each P y
    → Each P (if b then x else y)
if-Each P true x y h k = h
if-Each P false x y h k = k

-- Each branch may use which way the test came out.
pub branch-Each {ℓ} :
    {A : Type ℓ}
    → (P : A → Type 0) (b : Bool) (x y : Result A) → (b ≡ true → Each P x)
    → (b ≡ false → Each P y)
    → Each P (if b then x else y)
branch-Each P true x y h k = h refl
branch-Each P false x y h k = k refl

pub if-any {ℓ} :
    {A : Type ℓ} → (P : A → Type 0) (b : Bool) (x y : A) → P x → P y → P (if b then x else y)
if-any P true x y h k = h
if-any P false x y h k = k
