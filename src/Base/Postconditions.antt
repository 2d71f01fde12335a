-- ===== src/Base/Postconditions.antt =====
-- Properties of the value that a call comes to, wherever it comes to one.
use mathlib.Core.Path.{◌≡◌, refl, subst}
use mathlib.Core.Bool.{Bool, true, false}
use mathlib.Core.Option.{Option, none, some}
use Prim.Native.Nat.{ℕ}
use emuriscv.Base.Tests.{if◌then◌else◌}
use emuriscv.Base.Effects.{Outcome, ok, exit, undefined, unfinished, ◌>>=◌}

pub record Holds {ℓ κ} {A : Type ℓ} (P : A → Type κ) (m : Outcome A) : Type (ℓ ⊔ κ) where
  pub at : (a : A) → m ≡ ok a → P a

module _ {ℓ κ} {A : Type ℓ} {P : A → Type κ} where
  pub Holds-ok : (a : A) → P a → Holds P (ok a)
  Holds-ok a h = record { at = λ b e. subst P (ok_inj e) h }
    where
      ok_inj : {b c : A} → ok b ≡ ok c → b ≡ c
      ok_inj e = cc

  pub Holds-exit : (c : ℕ) → Holds P (exit c)
  Holds-exit c = record { at = λ b e. cc }

  pub Holds-undefined : Holds P undefined
  Holds-undefined = record { at = λ b e. cc }

  pub Holds-unfinished : Holds P unfinished
  Holds-unfinished = record { at = λ b e. cc }

  pub Holds-if : (b : Bool) (m n : Outcome A) → Holds P m → Holds P n → Holds P (if b then m else n)
  Holds-if true m n h k = h
  Holds-if false m n h k = k

module _ {ℓ κ μ ν} {A : Type ℓ} {B : Type ν} {P : A → Type κ} {Q : B → Type μ} where
  pub Holds-bind :
      (m : Outcome A) (f : A → Outcome B)
      → Holds P m
      → ((a : A) → P a → Holds Q (f a))
      → Holds Q (m >>= f)
  Holds-bind (ok a) f h k = k a (h.at a refl)
  Holds-bind (exit c) f h k = Holds-exit c
  Holds-bind undefined f h k = Holds-undefined
  Holds-bind unfinished f h k = Holds-unfinished

pub ruleset holds_rules = (Holds-ok, Holds-exit, Holds-undefined, Holds-if, Holds-bind)

-- To split on an optional value that is looked up.
module _ {ℓ κ μ} {A : Type ℓ} {B : Type κ} {P : B → Type μ} where
  pub Holds-option :
      (o : Option A) (m : Outcome B) (f : A → Outcome B)
      → Holds P m
      → ((a : A) → o ≡ some a → Holds P (f a))
      → Holds P (elim o [ none ↦ m | some a ↦ f a ])
  Holds-option none m f h k = h
  Holds-option (some a) m f h k = k a refl

-- What holds of the rest of a sequence, whatever its first part gives.
pub Holds-after :
    {A B : Type 0} {P : B → Type 0} (m : Outcome A) (f : A → Outcome B)
    → ((a : A) → Holds P (f a))
    → Holds P (m >>= f)
Holds-after (ok a) f h = h a
Holds-after (exit c) f h = Holds-exit c
Holds-after undefined f h = Holds-undefined
Holds-after unfinished f h = Holds-unfinished

-- The same, with the value that the first part gives.
pub Holds-when :
    {A B : Type 0} {P : B → Type 0} (m : Outcome A) (f : A → Outcome B)
    → ((a : A) → m ≡ ok a → Holds P (f a))
    → Holds P (m >>= f)
Holds-when (ok a) f h = h a refl
Holds-when (exit c) f h = Holds-exit c
Holds-when undefined f h = Holds-undefined
Holds-when unfinished f h = Holds-unfinished
