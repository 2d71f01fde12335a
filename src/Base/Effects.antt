-- ===== src/Base/Effects.antt =====
-- What a call of the emulator comes to: a value, the end of the process by `exit`, or an access
-- that C leaves undefined (a null or uninitialised pointer, an index past the end of an array). A call
-- of a loop that runs on fuel is unfinished where the fuel was too little.
use Prim.Native.Nat.{ℕ}
use mathlib.Core.Path.{◌≡◌, refl}

pub data Outcome {ℓ} (A : Type ℓ) : Type ℓ where
  ok : A → Outcome A
  exit : ℕ → Outcome A
  undefined : Outcome A
  unfinished : Outcome A

infixl 5 ◌>>=◌
abbrev pub ◌>>=◌ {ℓ κ} : {A : Type ℓ} {B : Type κ} → Outcome A → (A → Outcome B) → Outcome B
undefined >>= k = undefined
unfinished >>= k = unfinished
exit code >>= k = exit code
ok a >>= k = k a

-- Where a sequence succeeds, its first part did.
pub >>=-ok {ℓ κ} :
    {B : Type κ} {b : B} {A : Type ℓ} (k : A → Outcome B) (first : Outcome A)
    → first >>= k ≡ ok b
    → (a : A) × (k a ≡ ok b) × (first ≡ ok a)
>>=-ok k undefined h = cc
>>=-ok k unfinished h = cc
>>=-ok k (exit code) h = cc
>>=-ok k (ok a) h = (a, h, refl)
