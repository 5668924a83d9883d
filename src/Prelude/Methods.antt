-- ===== src/Prelude/Methods.antt =====
-- A Python call: it reads and changes the world `W`, and returns or raises. What was written before
-- a raise stays written, so the world comes back beside the exception too.
use mathlib.Core.Path.{◌≡◌, refl}
use mathlib.Core.Logic.{◌⊎◌, inl, inr}

pub data Outcome (E A : Type 0) : Type 0 where
  ok : A → Outcome E A
  raised : E → Outcome E A

abbrev pub Exec : Type 0 → Type 0 → Type 0 → Type 0
Exec W E A = W → Outcome E A × W

abbrev pub relabel : {E F A : Type 0} → (E → F) → Outcome E A → Outcome F A
relabel f (ok a) = ok a
relabel f (raised e) = raised (f e)

module _ {W E A : Type 0} where
  abbrev pub pure : A → Exec W E A
  pure a w = (ok a, w)

  abbrev pub raise : E → Exec W E A
  raise e w = (raised e, w)

  abbrev pub lift : Outcome E A → Exec W E A
  lift r w = (r, w)

  -- `try:`, with what follows told how the body ended
  abbrev pub attempt : {F : Type 0} → Exec W E A → Exec W F (Outcome E A)
  attempt m w = (ok (m w).0, (m w).1)

  -- `except Exception as exc: raise f(exc) from exc`
  abbrev pub reraise : {F : Type 0} → (E → F) → Exec W E A → Exec W F A
  reraise f m w = (relabel f (m w).0, (m w).1)

module _ {W E A B : Type 0} where
  abbrev pub continue : Outcome E A → (A → Exec W E B) → Exec W E B
  continue (ok a) f w = f a w
  continue (raised e) f w = (raised e, w)

  infixl 5 ◌>>=◌ ◌>>◌
  abbrev pub ◌>>=◌ : Exec W E A → (A → Exec W E B) → Exec W E B
  ◌>>=◌ m f w = continue (m w).0 f (m w).1

  abbrev pub ◌>>◌ : Exec W E A → Exec W E B → Exec W E B
  m >> k = m >>= λ _. k

-- To split on how a call ended and keep the equation.
pub Outcome-cases :
    {E A : Type 0} (r : Outcome E A) → ((a : A) × (r ≡ ok a)) ⊎ ((e : E) × (r ≡ raised e))
Outcome-cases (ok a) = inl (a, refl)
Outcome-cases (raised e) = inr (e, refl)

pub ok-injective : {E A : Type 0} {a b : A} → ◌≡◌ {A = Outcome E A} (ok a) (ok b) → a ≡ b
ok-injective h = cc

pub raised-injective :
    {E A : Type 0} {a b : E} → ◌≡◌ {A = Outcome E A} (raised a) (raised b) → a ≡ b
raised-injective h = cc

pub relabel-ok :
    {E F A : Type 0} (f : E → F) (r : Outcome E A) (a : A) → relabel f r ≡ ok a → r ≡ ok a
relabel-ok f (ok b) a h = cc
relabel-ok f (raised e) a h = cc
