-- ===== src/StateFile/Bytes.antt =====
-- What is read behind what was written.
use emuriscv.Base.{
  ℕ, zero, suc, ◌+◌, ◌*◌, ◌/◌, ◌%◌, ◌^◌, ◌≤◌, ◌<◌, ◌≡◌, refl, sym, ap, ◌∙◌, arith, IsWord, List,
  ◌++◌, length, byte_at, lt→ltb,
}
use emuriscv.Fdt.Text.{drop}
use emuriscv.StateFile.{fwrite, fread, byte_of, bytes_of_words, word_of}

length-fwrite :
    (n : ℕ) (bytes : ℕ → ℕ) (i : ℕ) (rest : List ℕ)
    → length (fwrite n bytes i ++ rest) ≡ n + length rest
unfolding fwrite
length-fwrite zero bytes i rest = omega arith
length-fwrite (suc n) bytes i rest = omega (arith, length-fwrite n bytes (i + 1) rest)

byte_at-fwrite :
    (n : ℕ) (bytes : ℕ → ℕ) (i : ℕ) (rest : List ℕ) (j : ℕ)
    → j < n
    → byte_at (fwrite n bytes i ++ rest) j ≡ bytes (i + j)
unfolding fwrite
byte_at-fwrite zero bytes i rest j h = absurd (omega arith)
byte_at-fwrite (suc n) bytes i rest zero h = ap bytes (omega arith)
byte_at-fwrite (suc n) bytes i rest (suc j) h =
    byte_at-fwrite n bytes (i + 1) rest j (omega arith) ∙ ap bytes (omega arith)

drop-fwrite :
    (n : ℕ) (bytes : ℕ → ℕ) (i : ℕ) (rest : List ℕ) → drop n (fwrite n bytes i ++ rest) ≡ rest
unfolding fwrite
drop-fwrite zero bytes i rest = refl
drop-fwrite (suc n) bytes i rest = drop-fwrite n bytes (i + 1) rest

-- `fread` of what `fwrite` wrote gives its bytes, and leaves what lies behind.
pub fread-fwrite :
    (n : ℕ) (bytes old : ℕ → ℕ) (rest : List ℕ) (j : ℕ)
    → j < n
    → (fread n (fwrite n bytes 0 ++ rest) old).0 j ≡ bytes j
unfolding fread
fread-fwrite n bytes old rest j h =
    rw
      (
        lt→ltb j n h,
        lt→ltb j (length (fwrite n bytes 0 ++ rest)) (omega (arith, length-fwrite n bytes 0 rest)),
      )
      (byte_at-fwrite n bytes 0 rest j h ∙ ap bytes (omega arith))

pub fread_rest :
    (n : ℕ) (bytes old : ℕ → ℕ) (rest : List ℕ) → (fread n (fwrite n bytes 0 ++ rest) old).1 ≡ rest
unfolding fread
fread_rest n bytes old rest = drop-fwrite n bytes 0 rest

byte_lem :
    (words : ℕ → ℕ) (k j : ℕ) → j < 4 → bytes_of_words words (4 * k + j) ≡ byte_of (words k) j
unfolding bytes_of_words
byte_lem words k j h =
    ap (λ q. byte_of (words q) ((4 * k + j) % 4)) (omega arith)
    ∙ ap (byte_of (words k)) (omega arith)

-- The word that four bytes of an object of words make.
pub word_of-bytes :
    (bytes words : ℕ → ℕ) (k : ℕ)
    → ((j : ℕ) → j < 4 → bytes (4 * k + j) ≡ bytes_of_words words (4 * k + j))
    → IsWord (words k)
    → word_of bytes k ≡ words k
unfolding word_of byte_of
word_of-bytes bytes words k same fits =
    let byte = λ (j : ℕ) (h : j < 4). same j h ∙ byte_lem words k j h in
    let e0 : bytes (4 * k) ≡ words k / 2 ^ 0 % 2 ^ 8 =
      ap bytes (omega arith) ∙ byte 0 (omega arith) in
    let e1 : bytes (4 * k + 1) ≡ words k / 2 ^ 8 % 2 ^ 8 = byte 1 (omega arith) in
    let e2 : bytes (4 * k + 2) ≡ words k / 2 ^ 16 % 2 ^ 8 = byte 2 (omega arith) in
    let e3 : bytes (4 * k + 3) ≡ words k / 2 ^ 24 % 2 ^ 8 = byte 3 (omega arith) in omega arith

-- The word that `fread` gets back.
pub word_of-fread :
    (n : ℕ) (words old : ℕ → ℕ) (rest : List ℕ) (k : ℕ)
    → 4 * k + 4 ≤ n
    → IsWord (words k)
    → word_of ((fread n (fwrite n (bytes_of_words words) 0 ++ rest) old).0) k ≡ words k
word_of-fread n words old rest k inside fits =
    word_of-bytes _ words k
      (λ j h. fread-fwrite n (bytes_of_words words) old rest (4 * k + j) (omega arith)) fits

-- A word that was written alone.
pub word_of-one :
    (w : ℕ) (old : ℕ → ℕ) (rest : List ℕ)
    → IsWord w
    → word_of ((fread 4 (fwrite 4 (byte_of w) 0 ++ rest) old).0) 0 ≡ w
word_of-one w old rest fits =
    word_of-bytes _ (λ k. w) 0
      (λ j h.
        fread-fwrite 4 (byte_of w) old rest (4 * 0 + j) (omega arith)
        ∙ ap (byte_of w) (omega arith)
        ∙ sym (byte_lem (λ k. w) 0 j h))
      fits
