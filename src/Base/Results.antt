-- ===== src/Base/Results.antt =====
-- Statements about actions that may fail.
use mathlib.Core.Path.{◌≡◌, refl}
use mathlib.Core.Bool.{Bool, true, false}
use mathlib.Core.Option.{Option, none, some}
use spe.Base.Tests.{if◌then◌else◌, ◌>>=◌}

-- A statement about the result of an action that returns.
abbrev pub Within {ℓ} : {A : Type ℓ} → (A → Type 0) → Option A → Type 0
Within Q none = Unit
Within Q (some x) = Q x

pub Within-bind {ℓ κ} :
    {A : Type ℓ} {B : Type κ} (Q : B → Type 0) (o : Option A) (f : A → Option B)
    → ((a : A) → Within Q (f a))
    → Within Q (o >>= f)
Within-bind Q none f h = tt
Within-bind Q (some a) f h = h a

pub Within-chain {ℓ κ} :
    {A : Type ℓ} {B : Type κ} (R : A → Type 0) (Q : B → Type 0) (o : Option A) (f : A → Option B)
    → Within R o
    → ((a : A) → R a → Within Q (f a))
    → Within Q (o >>= f)
Within-chain R Q none f v h = tt
Within-chain R Q (some a) f v h = h a v

pub Within-if {ℓ} :
    {A : Type ℓ} (Q : A → Type 0) (b : Bool) (x y : Option A)
    → Within Q x
    → Within Q y
    → Within Q (if b then x else y)
Within-if Q true x y h k = h
Within-if Q false x y h k = k

pub Within-test {ℓ} :
    {A : Type ℓ} (Q : A → Type 0) (b : Bool) (x y : Option A)
    → (b ≡ true → Within Q x)
    → (b ≡ false → Within Q y)
    → Within Q (if b then x else y)
Within-test Q true x y h k = h refl
Within-test Q false x y h k = k refl
