-- ===== src/Monitor/Input.antt =====
-- How monitor.c reads a line: what it uses of `fgets`, `strcspn`, `strtok`, `strtoul` and `atoi`.
-- `unsigned long` has 32 bits, as on the host that crtdbg.h and `_strdup` belong to, and `size_t` 64.
use emuriscv.Base.{
  ℕ, zero, suc, ◌+◌, ◌*◌, ◌-◌, ◌%◌, ◌^◌, ◌==◌, ltb, leb, Bool, true, false, ◌&&◌, ◌||◌,
  if◌then◌else◌, List, [], ◌∷◌, Option, none, some, Outcome, ok, undefined,
}

abbrev pub newline : ℕ
newline = 10

abbrev pub blank : ℕ
blank = 32

abbrev pub buffer_size : ℕ
buffer_size = 64

-- The bytes up to a newline, the newline included, and at most as many as there is room for; then the
-- rest of the input.
unfoldable pub read_line : ℕ → List ℕ → List ℕ × List ℕ
read_line zero input = ([], input)
read_line (suc room) [] = ([], [])
read_line (suc room) (c ∷ input) =
    let (line, rest) = read_line room input in
    if c == newline then (c ∷ [], input) else (c ∷ line, rest)

-- `none` at the end of the input.
unfoldable pub fgets : List ℕ → Option (List ℕ × List ℕ)
unfolding read_line
fgets [] = none
fgets (c ∷ input) = some (read_line (buffer_size - 1) (c ∷ input))

-- `buffer[strcspn(buffer, "\n")] = 0`: the bytes before the newline, and before a NUL.
unfoldable pub cut_line : List ℕ → List ℕ
cut_line [] = []
cut_line (zero ∷ buffer) = []
cut_line (suc c ∷ buffer) =
    let rest = cut_line buffer in if suc c == newline then [] else suc c ∷ rest

-- The token at the start of the text, and what `strtok` goes on with: the text behind the blank that
-- ends the token.
unfoldable pub token_end : List ℕ → List ℕ × List ℕ
token_end [] = ([], [])
token_end (c ∷ text) =
    let (token, rest) = token_end text in if c == blank then ([], text) else (c ∷ token, rest)

unfoldable pub skip_blanks : List ℕ → List ℕ
skip_blanks [] = []
skip_blanks (c ∷ text) = let rest = skip_blanks text in if c == blank then rest else c ∷ text

-- The calls of `strtok` until it returns a null pointer, at most as many as `left`.
unfoldable pub tokenize : ℕ → List ℕ → List (List ℕ)
tokenize zero text = []
tokenize (suc left) text = elim (skip_blanks text) [
  | [] ↦ []
  | c ∷ behind ↦ let (token, rest) = token_end (c ∷ behind) in token ∷ tokenize left rest
]

abbrev pub max_tokens : ℕ
max_tokens = 10

abbrev is_space : ℕ → Bool
is_space c = c == 32 || (leb 9 c && leb c 13)

unfoldable pub skip_space : List ℕ → List ℕ
skip_space [] = []
skip_space (c ∷ text) = let rest = skip_space text in if is_space c then rest else c ∷ text

-- A sign, if there is one, and what follows.
unfoldable pub take_sign : List ℕ → Bool × List ℕ
take_sign [] = (false, [])
take_sign (c ∷ text) =
    if c == b'-' then (true, text) else if c == b'+' then (false, text) else (false, c ∷ text)

-- The prefix `0x`; without digits behind it the value is 0 either way.
unfoldable pub skip_prefix : List ℕ → List ℕ
skip_prefix [] = []
skip_prefix (c ∷ []) = c ∷ []
skip_prefix (c ∷ d ∷ text) = if c == b'0' && (d == b'x' || d == b'X') then text else c ∷ d ∷ text

unfoldable pub digit_of : ℕ → Option ℕ
digit_of c =
    if leb b'0' c && leb c b'9'
    then some (c - b'0')
    else if leb b'a' c && leb c b'f'
    then some (c - b'a' + 10)
    else if leb b'A' c && leb c b'F'
    then some (c - b'A' + 10)
    else none

-- The value of the digits of a base at the start of the text, behind the digits read before.
unfoldable pub digits_value : ℕ → ℕ → List ℕ → ℕ
digits_value base acc [] = acc
digits_value base acc (c ∷ text) = elim (digit_of c) [
  | none ↦ acc
  | some d ↦ let rest = digits_value base (acc * base + d) text in if ltb d base then rest else acc
]

-- `strtoul(token, NULL, 16)`: a value that does not fit is ULONG_MAX, a minus sign negates.
unfoldable pub strtoul_16 : List ℕ → ℕ
strtoul_16 token =
    let (minus, unsigned) = take_sign (skip_space token) in
    let v = digits_value 16 0 (skip_prefix unsigned) in
    if leb (2 ^ 32) v then 2 ^ 32 - 1 else if minus then (2 ^ 32 - v) % 2 ^ 32 else v

-- `(size_t)atoi(token)`; a value that is no `int` is undefined.
unfoldable pub atoi : List ℕ → Outcome ℕ
atoi token =
    let (minus, unsigned) = take_sign (skip_space token) in
    let v = digits_value 10 0 unsigned in
    if minus
    then if leb v (2 ^ 31) then ok ((2 ^ 64 - v) % 2 ^ 64) else undefined
    else if ltb v (2 ^ 31)
    then ok v
    else undefined
