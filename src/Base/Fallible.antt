-- ===== src/Base/Fallible.antt =====
-- Calls that may throw: a value, or the exception.
use mathlib.Core.Path.{◌≡◌, refl, subst}
use mathlib.Core.Bool.{Bool, true, false}
use cerepso.Base.Tests.{if◌then◌else◌}

pub data Result {ℓ κ} (E : Type ℓ) (A : Type κ) : Type (ℓ ⊔ κ) where
  ok : A → Result E A
  err : E → Result E A

-- The rest of a routine, which an exception skips.
abbrev pub then_with {ℓ κ μ} :
    {E : Type ℓ} {A : Type κ} {B : Type μ} → (A → Result E B) → Result E A → Result E B
then_with rest (ok a) = rest a
then_with rest (err e) = err e

infixl 5 ◌>>=◌
abbrev pub ◌>>=◌ {ℓ κ μ} :
    {E : Type ℓ} {A : Type κ} {B : Type μ} → Result E A → (A → Result E B) → Result E B
call >>= rest = then_with rest call

-- A routine that returns got a value from its first call.
pub bind_ok {ℓ κ μ} :
    {E : Type ℓ} {A : Type κ} {B : Type μ} (call : Result E A) (rest : A → Result E B) {b : B}
    → (call >>= rest) ≡ ok b
    → (a : A) × (call ≡ ok a) × (rest a ≡ ok b)
bind_ok (ok a) rest e = (a, refl, e)
bind_ok (err x) rest e = cc

pub ok_injective {ℓ κ} :
    {E : Type ℓ} {A : Type κ} {a b : A} → Path (Result E A) (ok a) (ok b) → a ≡ b
ok_injective e = cc

-- What holds of the value if the routine returns, and `Bad` if it throws. With an empty `Bad` the
-- routine returns.
pub data Holds {ℓ κ μ} {E : Type ℓ} {A : Type κ} (Bad : Type μ) (P : A → Type μ)
    : Result E A → Type (ℓ ⊔ κ ⊔ μ) where
  returned : {a : A} → P a → Holds Bad P (ok a)
  thrown : {e : E} → Bad → Holds Bad P (err e)

pub bind-Holds {ℓ κ ν μ} :
    {E : Type ℓ} {A : Type κ} {B : Type ν} {Bad : Type μ} {P : A → Type μ} {Q : B → Type μ}
    {call : Result E A} {rest : A → Result E B}
    → Holds Bad P call
    → ((a : A) → P a → Holds Bad Q (rest a))
    → Holds Bad Q (call >>= rest)
bind-Holds (returned {a} p) q = q a p
bind-Holds (thrown bad) q = thrown bad

pub map-Holds {ℓ κ μ} :
    {E : Type ℓ} {A : Type κ} {Bad : Type μ} {P Q : A → Type μ} {call : Result E A}
    → ((a : A) → P a → Q a)
    → Holds Bad P call
    → Holds Bad Q call
map-Holds f (returned {a} p) = returned (f a p)
map-Holds f (thrown bad) = thrown bad

pub if-Holds {ℓ κ μ} :
    {E : Type ℓ} {A : Type κ} {Bad : Type μ} {P : A → Type μ} {x y : Result E A} (b : Bool)
    → Holds Bad P x
    → Holds Bad P y
    → Holds Bad P (if b then x else y)
if-Holds true p q = p
if-Holds false p q = q

-- Each branch under what the test has shown.
pub decide-Holds {ℓ κ μ} :
    {E : Type ℓ} {A : Type κ} {Bad : Type μ} {P : A → Type μ} {x y : Result E A} (b : Bool)
    → (b ≡ true → Holds Bad P x)
    → (b ≡ false → Holds Bad P y)
    → Holds Bad P (if b then x else y)
decide-Holds true p q = p refl
decide-Holds false p q = q refl

pub bad-Holds {ℓ κ μ} :
    {E : Type ℓ} {A : Type κ} {Bad : Type μ} {P : A → Type μ} (call : Result E A)
    → Bad
    → ((a : A) → P a)
    → Holds Bad P call
bad-Holds (ok a) bad p = returned (p a)
bad-Holds (err e) bad p = thrown bad

pub ok-Holds {ℓ κ μ} :
    {E : Type ℓ} {A : Type κ} {Bad : Type μ} {P : A → Type μ} {call : Result E A} {a : A}
    → Holds Bad P call
    → call ≡ ok a
    → P a
ok-Holds {P = P} (returned p) e = subst P (ok_injective e) p
ok-Holds (thrown bad) e = cc

-- With the equation of the value.
pub equation-Holds :
    {E : Type 0} {A : Type 0} {Bad : Type 0} {P : A → Type 0} {call : Result E A}
    → Holds Bad P call
    → Holds Bad (λ a. P a × (call ≡ ok a)) call
equation-Holds (returned p) = returned (p, refl)
equation-Holds (thrown bad) = thrown bad

-- Where nothing is bad the routine returns.
pub returns-Holds {ℓ κ} :
    {E : Type ℓ} {A : Type κ} {P : A → Type 0} {call : Result E A}
    → Holds ⊥ P call
    → (a : A) × (call ≡ ok a) × P a
returns-Holds (returned {a} p) = (a, refl, p)
returns-Holds (thrown bad) = elim bad [ ]
