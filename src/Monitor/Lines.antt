-- ===== src/Monitor/Lines.antt =====
-- A line of tokens, from the input to the command.
use emuriscv.Base.{ℕ, zero, suc, ◌<◌, ◌≡◌, refl, arith, false, ◌==◌, List, [], ◌∷◌, ◌++◌, length}
use emuriscv.Monitor.Input.{read_line, cut_line, token_end, skip_blanks, tokenize, newline, blank}

-- Bytes that can stand in a line, and in a token.
abbrev pub AllPrint : List ℕ → Type 0
AllPrint [] = Unit
AllPrint (c ∷ text) = (newline < c) × AllPrint text

abbrev pub AllToken : List ℕ → Type 0
AllToken [] = Unit
AllToken (c ∷ text) = (blank < c) × AllToken text

pub read_line-line :
    (room : ℕ) (line rest : List ℕ)
    → AllPrint line
    → length line < room
    → read_line room (line ++ newline ∷ rest) ≡ (line ++ newline ∷ [], rest)
unfolding read_line
read_line-line zero line rest h fits = absurd (omega arith)
read_line-line (suc room) [] rest h fits = refl
read_line-line (suc room) (c ∷ line) rest (hc, h) fits =
    rw (not_newline, read_line-line room line rest h (omega arith)) refl
  where
    not_newline : (c == newline) ≡ false
    not_newline = ground arith

pub cut_line-line : (line : List ℕ) → AllPrint line → cut_line (line ++ newline ∷ []) ≡ line
unfolding cut_line
cut_line-line [] h = refl
cut_line-line (zero ∷ line) (hc, h) = absurd (omega arith)
cut_line-line (suc c ∷ line) (hc, h) = rw (not_newline, cut_line-line line h) refl
  where
    not_newline : (suc c == newline) ≡ false
    not_newline = ground arith

not_blank : (c : ℕ) → blank < c → (c == blank) ≡ false
not_blank c h = ground arith

token_end-token :
    (token rest : List ℕ) → AllToken token → token_end (token ++ blank ∷ rest) ≡ (token, rest)
unfolding token_end
token_end-token [] rest h = refl
token_end-token (c ∷ token) rest (hc, h) = rw (not_blank c hc, token_end-token token rest h) refl

token_end-last : (token : List ℕ) → AllToken token → token_end token ≡ (token, [])
unfolding token_end
token_end-last [] h = refl
token_end-last (c ∷ token) (hc, h) = rw (not_blank c hc, token_end-last token h) refl

skip_blanks-token : (c : ℕ) (text : List ℕ) → blank < c → skip_blanks (c ∷ text) ≡ c ∷ text
unfolding skip_blanks
skip_blanks-token c text h = rw (not_blank c h) refl

-- A token before a blank, and the last token.
pub tokenize-cons :
    (left c : ℕ) (token rest : List ℕ)
    → AllToken (c ∷ token)
    → tokenize (suc left) ((c ∷ token) ++ blank ∷ rest) ≡ (c ∷ token) ∷ tokenize left rest
unfolding tokenize
tokenize-cons left c token rest (hc, h) =
    rw (skip_blanks-token c (token ++ blank ∷ rest) hc, tokenize)
      (rw (token_end-token (c ∷ token) rest (hc, h)) refl)

pub tokenize_last :
    (left c : ℕ) (token : List ℕ)
    → AllToken (c ∷ token)
    → tokenize (suc (suc left)) (c ∷ token) ≡ (c ∷ token) ∷ []
unfolding tokenize skip_blanks
tokenize_last left c token (hc, h) =
    rw (skip_blanks-token c token hc, tokenize) (rw (token_end-last (c ∷ token) (hc, h)) refl)
