-- ===== src/Prelude/Partial.antt =====
-- Calls that raise or answer, where it does not matter what they raise: none is the exception.
use mathlib.Core.Path.{◌≡◌, refl, subst}
use mathlib.Core.Bool.{Bool, true, false}
use mathlib.Core.Option.{Option, none, some}
use aws_devops_sdet_demo.Prelude.Tests.{if◌then◌else◌}

-- Nothing follows from an exception.
abbrev pub chain {ℓ κ} : {A : Type ℓ} {B : Type κ} → Option A → (A → Option B) → Option B
chain none f = none
chain (some a) f = f a

pub some-injective {ℓ} : {A : Type ℓ} {a b : A} → some a ≡ some b → a ≡ b
some-injective h = cc

-- What holds of the result, where there is one.
pub record Yields {ℓ} {A : Type ℓ} (P : A → Type 0) (m : Option A) : Type ℓ where
  pub at : (a : A) → m ≡ some a → P a

pub Yields-chain {ℓ κ} :
    {A : Type ℓ} {B : Type κ} {P : B → Type 0} (m : Option A) {f : A → Option B}
    → ((a : A) → m ≡ some a → Yields P (f a))
    → Yields P (chain m f)
Yields-chain none h = record { at = λ a e. cc e }
Yields-chain (some a) h = h a refl

pub Yields-if {ℓ} :
    {A : Type ℓ} {P : A → Type 0} (b : Bool) {m n : Option A}
    → Yields P m
    → Yields P n
    → Yields P (if b then m else n)
Yields-if true hm hn = hm
Yields-if false hm hn = hn

pub Yields-some {ℓ} : {A : Type ℓ} {P : A → Type 0} {a : A} → P a → Yields P (some a)
Yields-some {P = P} h = record { at = λ b e. subst P (some-injective e) h }
