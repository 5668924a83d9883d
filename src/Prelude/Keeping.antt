-- ===== src/Prelude/Keeping.antt =====
-- Calls that leave what `view` shows of the world as it was, one rule for each way to build a call.
use mathlib.Core.Path.{◌≡◌, refl, ◌∙◌, subst}
use mathlib.Core.Bool.{Bool, true, false}
use aws_devops_sdet_demo.Prelude.Tests.{if◌then◌else◌}
use aws_devops_sdet_demo.Prelude.Methods.{
  Outcome, ok, raised, Exec, pure, raise, lift, attempt, reraise, ◌>>=◌, continue, ok-injective,
}

pub record Stable {W V E A : Type 0} (view : W → V) (m : Exec W E A) : Type 0 where
  pub at : (w : W) → view (m w).1 ≡ view w

module _ {W V : Type 0} {view : W → V} where
  pub Stable-pure : {E A : Type 0} (a : A) → Stable {E = E} view (pure a)
  Stable-pure a = record { at = λ w. refl }

  pub Stable-raise : {E A : Type 0} (e : E) → Stable {A = A} view (raise e)
  Stable-raise e = record { at = λ w. refl }

  pub Stable-lift : {E A : Type 0} (r : Outcome E A) → Stable view (lift r)
  Stable-lift r = record { at = λ w. refl }

  pub Stable-attempt :
      {E F A : Type 0} (m : Exec W E A) → Stable view m → Stable {E = F} view (attempt m)
  Stable-attempt m h = record { at = h.at }

  pub Stable-reraise :
      {E F A : Type 0} (f : E → F) (m : Exec W E A) → Stable view m → Stable view (reraise f m)
  Stable-reraise f m h = record { at = h.at }

  pub Stable-if :
      {E A : Type 0} (b : Bool) (m n : Exec W E A)
      → Stable view m
      → Stable view n
      → Stable view (if b then m else n)
  Stable-if true m n hm hn = hm
  Stable-if false m n hm hn = hn

  continue-Stable :
      {E A B : Type 0} (r : Outcome E A) (f : A → Exec W E B)
      → ((a : A) → Stable view (f a))
      → (w : W) → view (continue r f w).1 ≡ view w
  continue-Stable (ok a) f h w = (h a).at w
  continue-Stable (raised e) f h w = refl

  pub Stable-bind :
      {E A B : Type 0} (m : Exec W E A) (f : A → Exec W E B)
      → Stable view m
      → ((a : A) → Stable view (f a))
      → Stable view (m >>= f)
  Stable-bind m f hm hf = record { at = λ w. continue-Stable (m w).0 f hf (m w).1 ∙ hm.at w }

pub ruleset stable_rules =
    (Stable-pure, Stable-raise, Stable-lift, Stable-attempt, Stable-reraise, Stable-if, Stable-bind)

-- A call that, where it returns, answers what `P` says, of the world that it leaves too.
pub record Ensures {W E A : Type 0} (P : A → W → Type 0) (m : Exec W E A) : Type 0 where
  pub at : (w : W) (a : A) → (m w).0 ≡ ok a → P a (m w).1

module _ {W E : Type 0} where
  continue-ensures :
      {A B : Type 0} {P : B → W → Type 0} (r : Outcome E A) (f : A → Exec W E B)
      → ((a : A) → Ensures P (f a))
      → (w : W) (b : B) → (continue r f w).0 ≡ ok b
      → P b (continue r f w).1
  continue-ensures (ok a) f h w b e = (h a).at w b e
  continue-ensures (raised x) f h w b e = cc e

  pub Ensures-bind :
      {A B : Type 0} {P : B → W → Type 0} (m : Exec W E A) (f : A → Exec W E B)
      → ((a : A) → Ensures P (f a))
      → Ensures P (m >>= f)
  Ensures-bind m f h = record { at = λ w. continue-ensures (m w).0 f h (m w).1 }

  continue-ensures-pure :
      {A B : Type 0} (P : B → W → Type 0) (r : Outcome E A) (f : A → B) (w : W)
      → ((a : A) → r ≡ ok a → P (f a) w)
      → (b : B) → (continue r (λ a. pure (f a)) w).0 ≡ ok b
      → P b (continue r (λ a. pure (f a)) w).1
  continue-ensures-pure P (ok a) f w h b e = subst (λ x. P x w) (ok-injective e) (h a refl)
  continue-ensures-pure P (raised x) f w h b e = cc e

  pub Ensures-last :
      {A B : Type 0} {P : B → W → Type 0} (m : Exec W E A) (f : A → B)
      → Ensures (λ a. P (f a)) m
      → Ensures P (m >>= λ a. pure (f a))
  Ensures-last {P = P} m f h = record {
    at = λ w. continue-ensures-pure P (m w).0 f (m w).1 (λ a. h.at w a);
  }
