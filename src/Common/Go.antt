-- ===== src/Common/Go.antt =====
-- What a Go function that can fail comes back with: a value, the error it returns, or a run-time
-- panic (an index or a slice bound out of range). `stuck` is no outcome of Go: a loop of the model
-- has run out of its fuel.
use mathlib.Core.Path.{◌≡◌, refl}
use mathlib.Core.Logic.{◌≢◌}
use mathlib.Core.Bool.{Bool, true, false}
use rawcon.Common.Tests.{if◌then◌else◌}

pub data Go {ℓ κ} (E : Type ℓ) (A : Type κ) : Type (ℓ ⊔ κ) where
  ok : A → Go E A
  err : E → Go E A
  panic : Go E A
  stuck : Go E A

infixl 5 ◌>>=◌
abbrev pub ◌>>=◌ {ℓ κ μ} : {E : Type ℓ} {A : Type κ} {B : Type μ} → Go E A → (A → Go E B) → Go E B
ok a >>= f = f a
err e >>= f = err e
panic >>= f = panic
stuck >>= f = stuck

-- The function returns a value or an error: it neither panics nor loops.
abbrev pub Safe {ℓ κ} : {E : Type ℓ} {A : Type κ} → Go E A → Type 0
Safe (ok a) = Unit
Safe (err e) = Unit
Safe panic = ⊥
Safe stuck = ⊥

pub Safe-bind {ℓ κ μ} :
    {E : Type ℓ} {A : Type κ} {B : Type μ} (m : Go E A) (f : A → Go E B)
    → Safe m
    → ((a : A) → m ≡ ok a → Safe (f a))
    → Safe (m >>= f)
Safe-bind (ok a) f h k = k a refl
Safe-bind (err e) f h k = tt
Safe-bind panic f h k = absurd h
Safe-bind stuck f h k = absurd h

pub Safe-if {ℓ κ} :
    {E : Type ℓ} {A : Type κ} (b : Bool) (x y : Go E A)
    → (b ≡ true → Safe x)
    → (b ≡ false → Safe y)
    → Safe (if b then x else y)
Safe-if true x y h k = h refl
Safe-if false x y h k = k refl

pub >>=-eq-ok {ℓ κ μ} :
    {E : Type ℓ} {A : Type κ} {B : Type μ} (call : Go E A) (next : A → Go E B) {last : B}
    → (call >>= next) ≡ ok last
    → (value : A) × (call ≡ ok value) × (next value ≡ ok last)
>>=-eq-ok panic next returns = cc
>>=-eq-ok stuck next returns = cc
>>=-eq-ok (err e) next returns = cc
>>=-eq-ok (ok value) next returns = (value, refl, returns)

-- The function comes to an end, be it a panic.
abbrev pub Ends {ℓ κ} : {E : Type ℓ} {A : Type κ} → Go E A → Type 0
Ends (ok a) = Unit
Ends (err e) = Unit
Ends panic = Unit
Ends stuck = ⊥

pub Ends-bind {ℓ κ μ} :
    {E : Type ℓ} {A : Type κ} {B : Type μ} (m : Go E A) (f : A → Go E B)
    → Ends m
    → ((a : A) → m ≡ ok a → Ends (f a))
    → Ends (m >>= f)
Ends-bind (ok a) f h k = k a refl
Ends-bind (err e) f h k = tt
Ends-bind panic f h k = tt
Ends-bind stuck f h k = absurd h

pub Ends-if {ℓ κ} :
    {E : Type ℓ} {A : Type κ} (b : Bool) (x y : Go E A)
    → (b ≡ true → Ends x)
    → (b ≡ false → Ends y)
    → Ends (if b then x else y)
Ends-if true x y h k = h refl
Ends-if false x y h k = k refl

pub Safe→Ends {ℓ κ} : {E : Type ℓ} {A : Type κ} (m : Go E A) → Safe m → Ends m
Safe→Ends (ok a) h = tt
Safe→Ends (err e) h = tt
Safe→Ends panic h = tt
Safe→Ends stuck h = absurd h

pub Ends-eq {ℓ κ} : {E : Type ℓ} {A : Type κ} (m n : Go E A) → m ≡ n → Ends n → Ends m
Ends-eq m n e h = rw e h

pub Ends-ne-stuck {ℓ κ} : {E : Type ℓ} {A : Type κ} (m : Go E A) → Ends m → m ≢ stuck
Ends-ne-stuck (ok a) h = λ e. cc
Ends-ne-stuck (err a) h = λ e. cc
Ends-ne-stuck panic h = λ e. cc
Ends-ne-stuck stuck h = absurd h

-- What holds of the value, where the function returns one.
abbrev pub OnOk {ℓ κ} : {E : Type ℓ} {A : Type κ} → (A → Type 0) → Go E A → Type 0
OnOk P (ok a) = P a
OnOk P (err e) = Unit
OnOk P panic = Unit
OnOk P stuck = Unit

pub OnOk-bind {ℓ κ μ} :
    {E : Type ℓ} {A : Type κ} {B : Type μ} (P : B → Type 0) (m : Go E A) (f : A → Go E B)
    → ((a : A) → OnOk P (f a))
    → OnOk P (m >>= f)
OnOk-bind P (ok a) f k = k a
OnOk-bind P (err e) f k = tt
OnOk-bind P panic f k = tt
OnOk-bind P stuck f k = tt

pub OnOk-if {ℓ κ} :
    {E : Type ℓ} {A : Type κ} (P : A → Type 0) (b : Bool) (x y : Go E A)
    → (b ≡ true → OnOk P x)
    → (b ≡ false → OnOk P y)
    → OnOk P (if b then x else y)
OnOk-if P true x y h k = h refl
OnOk-if P false x y h k = k refl

pub OnOk-ok {ℓ κ} :
    {E : Type ℓ} {A : Type κ} (P : A → Type 0) (m : Go E A) (a : A) → m ≡ ok a → OnOk P m → P a
OnOk-ok P m a h p = rw h at p

-- What the function returns, if it returns a value, has the property.
abbrev pub Holds {ℓ κ μ} : {E : Type ℓ} {A : Type κ} → (A → Type μ) → Go E A → Type μ
Holds P (ok a) = P a
Holds P (err e) = Unit
Holds P panic = Unit
Holds P stuck = Unit

pub Holds-bind {ℓ κ ν μ} :
    {E : Type ℓ} {A : Type κ} {B : Type ν} (P : B → Type μ) (m : Go E A) (f : A → Go E B)
    → ((a : A) → m ≡ ok a → Holds P (f a))
    → Holds P (m >>= f)
Holds-bind P (ok a) f k = k a refl
Holds-bind P (err e) f k = tt
Holds-bind P panic f k = tt
Holds-bind P stuck f k = tt

pub Holds-ok {ℓ κ μ} :
    {E : Type ℓ} {A : Type κ} (P : A → Type μ) (m : Go E A) (a : A) → m ≡ ok a → Holds P m → P a
Holds-ok P m a e h = rw e at h
