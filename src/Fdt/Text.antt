-- ===== src/Fdt/Text.antt =====
-- Byte strings: what fdt.c uses of the C library's string functions.
use Prim.Native.Char.{code}
use Prim.Native.String.{String}
use emuriscv.Base.{
  ℕ, zero, suc, ◌+◌, ◌/◌, ◌%◌, ◌==◌, ltb, Bool, true, false, ◌&&◌, if◌then◌else◌, List, [], ◌∷◌,
  ◌++◌, length,
}

-- The bytes of an ASCII literal, less its NUL.
abbrev pub codes : String → List ℕ
codes String.[] = []
codes (String.◌∷◌ c s) = code c ∷ codes s

abbrev pub drop {ℓ} : {A : Type ℓ} → ℕ → List A → List A
drop zero xs = xs
drop (suc n) [] = []
drop (suc n) (x ∷ xs) = drop n xs

abbrev pub take {ℓ} : {A : Type ℓ} → ℕ → List A → List A
take zero xs = []
take (suc n) [] = []
take (suc n) (x ∷ xs) = x ∷ take n xs

-- `memset` to 0.
abbrev pub zeros : ℕ → List ℕ
zeros zero = []
zeros (suc n) = 0 ∷ zeros n

-- The bytes from a `char*` up to the NUL, and their number.
abbrev pub c_string : List ℕ → List ℕ
c_string [] = []
c_string (zero ∷ bytes) = []
c_string (suc c ∷ bytes) = suc c ∷ c_string bytes

abbrev pub strlen : List ℕ → ℕ
strlen bytes = length (c_string bytes)

-- `!strcmp(a, b)`, on the bytes before the NUL.
abbrev pub same_text : List ℕ → List ℕ → Bool
same_text [] [] = true
same_text [] (d ∷ b) = false
same_text (c ∷ a) [] = false
same_text (c ∷ a) (d ∷ b) = (c == d) && same_text a b

-- A name as it lies in memory, with its NUL.
abbrev pub with_nul : List ℕ → List ℕ
with_nul name = name ++ (0 ∷ [])

-- A digit of the format `%lx`, and the sixteen digits that an `uint64_t` has at most; the first
-- argument is the number of digits left.
abbrev pub hex_digit : ℕ → ℕ
hex_digit d = if ltb d 10 then 48 + d else 87 + d

abbrev pub hex : ℕ → ℕ → List ℕ
hex zero n = []
hex (suc left) n =
    let high = hex left (n / 16) in
    if ltb n 16 then hex_digit n ∷ [] else high ++ (hex_digit (n % 16) ∷ [])
