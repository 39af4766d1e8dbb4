-- ===== src/Common/Outcomes.antt =====
-- A call that returns a value or throws: an error of the model for each `throw` of the source.
use mathlib.Core.Path.{◌≡◌, refl, subst}
use mathlib.Core.Logic.{◌⊎◌, inl, inr}
use mathlib.Core.Bool.{Bool, true, false}

pub data Result {ℓ κ} (Failure : Type ℓ) (Value : Type κ) : Type (ℓ ⊔ κ) where
  err : Failure → Result Failure Value
  ok : Value → Result Failure Value

-- `throw_if test e >> k` is `if (test) throw e;` before `k`.
infixl 5 ◌>>=◌ ◌>>◌
abbrev pub ◌>>=◌ {ℓ κ μ} :
    {Failure : Type ℓ} {Value : Type κ} {Next : Type μ}
    → Result Failure Value
    → (Value → Result Failure Next)
    → Result Failure Next
call >>= next = elim call [ err e ↦ err e | ok v ↦ next v ]

abbrev pub ◌>>◌ {ℓ μ} :
    {Failure : Type ℓ} {Next : Type μ}
    → Result Failure (Unit {0})
    → Result Failure Next
    → Result Failure Next
check >> next = elim check [ err e ↦ err e | ok _ ↦ next ]

abbrev pub throw_if {ℓ} : {Failure : Type ℓ} → Bool → Failure → Result Failure (Unit {0})
throw_if false e = ok tt
throw_if true e = err e

-- What returned before a call that returned.
pub returned_before {ℓ κ μ} :
    {Failure : Type ℓ} {Value : Type κ} {Next : Type μ} {w : Next}
    (next : Value → Result Failure Next) (call : Result Failure Value)
    → (call >>= next) ≡ ok w
    → (v : Value) × (next v ≡ ok w) × (call ≡ ok v)
returned_before next (err e) h = cc
returned_before next (ok v) h = (v, h, refl)

-- What a check found before a call that returned.
pub passed {ℓ μ} :
    {Failure : Type ℓ} {Next : Type μ} {w : Next} (check : Result Failure (Unit {0}))
    (next : Result Failure Next)
    → (check >> next) ≡ ok w
    → (check ≡ ok tt) × (next ≡ ok w)
passed (err e) next h = cc
passed (ok v) next h = (refl, h)

-- What holds of a value holds of an equal result's value.
pub along {ℓ κ μ} :
    {Failure : Type ℓ} {Value : Type κ} {v w : Value} (P : Value → Type μ)
    → ◌≡◌ {A = Result Failure Value} (ok v) (ok w)
    → P v
    → P w
along {v} P h p = subst (λ r. elim r [ err _ ↦ P v | ok u ↦ P u ]) h p

pub Result-cases {ℓ κ} :
    {Failure : Type ℓ} {Value : Type κ} (r : Result Failure Value)
    → ((e : Failure) × (r ≡ err e)) ⊎ ((v : Value) × (r ≡ ok v))
Result-cases (err e) = inl (e, refl)
Result-cases (ok v) = inr (v, refl)
