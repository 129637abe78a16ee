-- ===== src/Common/Results.antt =====
-- Results that carry an error, and the runtime panics of Go that the handlers can meet.
use mathlib.Core.Path.{◌≡◌, refl}
use mathlib.Core.Option.{Option, none, some}

pub data Result {ℓ} (E : Type 0) (A : Type ℓ) : Type ℓ where
  ok : A → Result E A
  err : E → Result E A

infixl 5 ◌>>=◌ ◌>>◌
abbrev pub ◌>>=◌ {ℓ κ} :
    {E : Type 0} {A : Type ℓ} {B : Type κ} → Result E A → (A → Result E B) → Result E B
ok a >>= f = f a
err e >>= f = err e

abbrev pub ◌>>◌ {ℓ κ} :
    {E : Type 0} {A : Type ℓ} {B : Type κ} → Result E A → Result E B → Result E B
m >> k = m >>= λ _. k

-- A chain of steps that may find nothing.
infixl 5 ◌>>=?◌
abbrev pub ◌>>=?◌ {ℓ κ} : {A : Type ℓ} {B : Type κ} → Option A → (A → Option B) → Option B
none >>=? f = none
some a >>=? f = f a

-- A chain that succeeds has a first step that succeeds.
pub >>=-eq-ok {ℓ κ} :
    {E : Type 0} {A : Type ℓ} {B : Type κ} (step : Result E A) (next : A → Result E B) {last : B}
    → (step >>= next) ≡ ok last
    → (first : A) × (step ≡ ok first) × (next first ≡ ok last)
>>=-eq-ok (err e) next p = cc
>>=-eq-ok (ok first) next p = (first, refl, p)

pub ok_inj {ℓ} : {E : Type 0} {A : Type ℓ} {a b : A} → Path (Result E A) (ok a) (ok b) → a ≡ b
ok_inj e = cc

pub err≢ok {ℓ} : {E : Type 0} {A : Type ℓ} {e : E} {a : A} → Path (Result E A) (err e) (ok a) → ⊥
err≢ok e = cc

-- What makes a goroutine panic.
pub data Fault : Type 0 where
  nil_dereference invalid_uuid index_out_of_range wrong_type unknown_field : Fault

-- `*p`
abbrev pub deref {ℓ} : {A : Type ℓ} → Option A → Result Fault A
deref none = err nil_dereference
deref (some a) = ok a
