-- ===== src/Monitor/Numbers.antt =====
-- A number that is printed in hexadecimal and read by the monitor.
use emuriscv.Base.{
  ℕ, zero, suc, ◌+◌, ◌*◌, ◌-◌, ◌/◌, ◌%◌, ◌^◌, ◌≤◌, ◌<◌, ◌≡◌, ◌⊎◌, inl, inr, refl, sym, ap, ◌∙◌,
  arith, IsWord, Bool, true, false, Bool-cases, ◌==◌, ltb, lt→ltb, leb, if◌then◌else◌, ◌&&◌, ◌||◌,
  List, [], ◌∷◌, ◌++◌, length, some,
}
use native.Mathlib.Nat.{pow-suc}
use emuriscv.Fdt.Strings.{length-append}
use emuriscv.Fdt.Text.{hex, hex_digit}
use emuriscv.Monitor.Input.{digit_of, digits_value, skip_space, take_sign, skip_prefix, strtoul_16}

-- A digit 0-9 or a-f.
abbrev pub IsHex : ℕ → Type 0
IsHex c = ((48 ≤ c) × (c ≤ 57)) ⊎ ((97 ≤ c) × (c ≤ 102))

abbrev pub AllHex : List ℕ → Type 0
AllHex [] = Unit
AllHex (c ∷ text) = IsHex c × AllHex text

hex_digit-IsHex : (d : ℕ) → d < 16 → IsHex (hex_digit d)
hex_digit-IsHex d h = elim (Bool-cases (ltb d 10)) [
  | inl e ↦ rw e (inl (omega arith, ground arith))
  | inr e ↦ rw e (inr (ground arith, omega arith))
]

AllHex-append : (a b : List ℕ) → AllHex a → AllHex b → AllHex (a ++ b)
AllHex-append [] b ha hb = hb
AllHex-append (c ∷ a) b (hc, ha) hb = (hc, AllHex-append a b ha hb)

pub hex-AllHex : (left n : ℕ) → AllHex (hex left n)
hex-AllHex zero n = tt
hex-AllHex (suc left) n = elim (Bool-cases (ltb n 16)) [
  | inl e ↦ rw e (hex_digit-IsHex n (ground arith), tt)
  | inr e ↦ rw e (
      AllHex-append (hex left (n / 16)) (hex_digit (n % 16) ∷ []) (hex-AllHex left (n / 16))
        (hex_digit-IsHex (n % 16) (omega arith), tt))
]

digit_of-hex_digit : (d : ℕ) → d < 16 → digit_of (hex_digit d) ≡ some d
unfolding digit_of
digit_of-hex_digit d h = elim (Bool-cases (ltb d 10)) [
  | inl e ↦ rw e (ground arith)
  | inr e ↦ rw e (ground arith)
]

digit_of-IsHex : (c : ℕ) → IsHex c → (d : ℕ) × (digit_of c ≡ some d) × (d < 16)
unfolding digit_of
digit_of-IsHex c (inl h) = (c - 48, ground arith, omega arith)
digit_of-IsHex c (inr h) = (c - 97 + 10, ground arith, omega arith)

digits_value-cons :
    (c d acc : ℕ) (text : List ℕ)
    → digit_of c ≡ some d
    → d < 16
    → digits_value 16 acc (c ∷ text) ≡ digits_value 16 (acc * 16 + d) text
unfolding digits_value
digits_value-cons c d acc text e h = rw (e, digits_value) (rw (lt→ltb d 16 h) refl)

digits_value-append :
    (a : List ℕ) (d acc : ℕ)
    → d < 16
    → AllHex a
    → digits_value 16 acc (a ++ (hex_digit d ∷ [])) ≡ digits_value 16 acc a * 16 + d
digits_value-append [] d acc h ha =
    digits_value-cons (hex_digit d) d acc [] (digit_of-hex_digit d h) h
    ∙ none_left (acc * 16 + d)
    ∙ ap (λ v. v * 16 + d) (sym (none_left acc))
  where
    none_left : (v : ℕ) → digits_value 16 v [] ≡ v
    none_left v = unfold digits_value in refl
digits_value-append (c ∷ a) d acc h (hc, ha) =
    let (e, is_e, small) = digit_of-IsHex c hc in
    digits_value-cons c e acc (a ++ (hex_digit d ∷ [])) is_e small
    ∙ digits_value-append a d (acc * 16 + e) h ha
    ∙ ap (λ v. v * 16 + d) (sym (digits_value-cons c e acc a is_e small))

one_digit : (left n : ℕ) → ltb n 16 ≡ true → hex (suc left) n ≡ hex_digit n ∷ []
one_digit left n e = rw e refl

several :
    (left n : ℕ)
    → ltb n 16 ≡ false
    → hex (suc left) n ≡ hex left (n / 16) ++ (hex_digit (n % 16) ∷ [])
several left n e = rw e refl

-- The digits of a number of at most so many digits.
digits_value-hex : (left n : ℕ) → n < 16 ^ left → digits_value 16 0 (hex left n) ≡ n
unfolding digits_value
digits_value-hex zero n h = omega arith
digits_value-hex (suc left) n h = elim (Bool-cases (ltb n 16)) [
  | inl e ↦
      ap (digits_value 16 0) (one_digit left n e)
      ∙ digits_value-cons (hex_digit n) n 0 [] (digit_of-hex_digit n (ground arith)) (ground arith)
      ∙ omega arith
  | inr e ↦ rw e (
      digits_value-append (hex left (n / 16)) (n % 16) 0 (omega arith) (hex-AllHex left (n / 16))
      ∙ ap (λ v. v * 16 + n % 16) (digits_value-hex left (n / 16) (omega (arith, pow-suc 16 left)))
      ∙ omega arith)
]

skip_space-hex : (text : List ℕ) → AllHex text → skip_space text ≡ text
unfolding skip_space
skip_space-hex [] h = refl
skip_space-hex (c ∷ text) (inl hc, h) = ground arith
skip_space-hex (c ∷ text) (inr hc, h) = ground arith

take_sign-hex : (text : List ℕ) → AllHex text → take_sign text ≡ (false, text)
unfolding take_sign
take_sign-hex [] h = refl
take_sign-hex (c ∷ text) (inl hc, h) = ground arith
take_sign-hex (c ∷ text) (inr hc, h) = ground arith

not_x : (d : ℕ) → IsHex d → (d == b'x' || d == b'X') ≡ false
not_x d (inl h) = ground arith
not_x d (inr h) = ground arith

and-false : (b : Bool) → (b && false) ≡ false
and-false true = refl
and-false false = refl

skip_prefix-hex : (text : List ℕ) → AllHex text → skip_prefix text ≡ text
unfolding skip_prefix
skip_prefix-hex [] h = refl
skip_prefix-hex (c ∷ []) h = refl
skip_prefix-hex (c ∷ d ∷ text) (hc, (hd, h)) = rw (not_x d hd, and-false (c == b'0')) refl

-- `strtoul` reads back a word that `%x` prints.
pub strtoul_16-hex : (n : ℕ) → IsWord n → strtoul_16 (hex 8 n) ≡ n
unfolding strtoul_16
strtoul_16-hex n fits =
    let text = hex-AllHex 8 n in
    ap (λ t. strtoul_of (take_sign t)) (skip_space-hex (hex 8 n) text)
    ∙ ap strtoul_of (take_sign-hex (hex 8 n) text)
    ∙ ap bounded
        (ap (digits_value 16 0) (skip_prefix-hex (hex 8 n) text) ∙ digits_value-hex 8 n fits)
    ∙ rw (lt→leb n fits) refl
  where
    bounded : ℕ → ℕ
    bounded v = if leb (2 ^ 32) v then 2 ^ 32 - 1 else v

    strtoul_of : Bool × List ℕ → ℕ
    strtoul_of p =
        let v = digits_value 16 0 (skip_prefix (p.1)) in
        if leb (2 ^ 32) v then 2 ^ 32 - 1 else if p.0 then (2 ^ 32 - v) % 2 ^ 32 else v

    lt→leb : (v : ℕ) → v < 2 ^ 32 → leb (2 ^ 32) v ≡ false
    lt→leb v h = ground arith

pub length-hex : (left n : ℕ) → length (hex left n) ≤ left
length-hex zero n = omega arith
length-hex (suc left) n = elim (Bool-cases (ltb n 16)) [
  | inl e ↦ rw e (omega arith)
  | inr e ↦ rw e (
      omega (
        arith,
        length-append (hex left (n / 16)) (hex_digit (n % 16) ∷ []),
        length-hex left (n / 16),
      ))
]

-- A number has a digit.
pub hex-cons : (left n : ℕ) → (c : ℕ) × (text : List ℕ) × (hex (suc left) n ≡ c ∷ text)
hex-cons zero n = elim (Bool-cases (ltb n 16)) [
  | inl e ↦ (hex_digit n, [], rw e refl)
  | inr e ↦ (hex_digit (n % 16), [], rw e refl)
]
hex-cons (suc left) n = elim (Bool-cases (ltb n 16)) [
  | inl e ↦ (hex_digit n, [], rw e refl)
  | inr e ↦
      let (c, text, f) = hex-cons left (n / 16) in
      (
        c,
        text ++ (hex_digit (n % 16) ∷ []),
        several (suc left) n e ∙ ap (λ t. t ++ (hex_digit (n % 16) ∷ [])) f,
      )
]
