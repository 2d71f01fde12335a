-- ===== src/Monitor/Writes.antt =====
-- The command `w` from the line that is typed to the memory.
use emuriscv.Base.{
  ℕ, ◌-◌, ◌≤◌, ◌<◌, ◌≡◌, inl, inr, refl, sym, ap, ◌∙◌, arith, IsWord, List, [], ◌∷◌, ◌++◌, length,
  some, Outcome, ok, exit, unfinished, undefined, ◌>>=◌,
}
use mathlib.Core.Path.{subst}
use emuriscv.Fdt.Strings.{length-append}
use emuriscv.Fdt.Text.{hex}
use emuriscv.Machine.{State}
use emuriscv.Monitor.{write_memory_virtual}
use emuriscv.Monitor.Input.{fgets, cut_line, tokenize, newline, blank, buffer_size, strtoul_16}
use emuriscv.Monitor.Commands.{
  Host, Reply, next, confirmed, run_monitor_loop, read_command, run_line, run_command, w_command,
}
use emuriscv.Monitor.Numbers.{AllHex, hex-AllHex, hex-cons, length-hex, strtoul_16-hex}
use emuriscv.Monitor.Lines.{
  AllPrint, AllToken, read_line-line, cut_line-line, tokenize-cons, tokenize_last,
}

-- The digits that `%x` prints, at most eight.
unfoldable pub hex_word : ℕ → List ℕ
hex_word n = hex 8 n

hex-AllToken : (text : List ℕ) → AllHex text → AllToken text
hex-AllToken [] h = tt
hex-AllToken (c ∷ text) (inl hc, h) = (omega arith, hex-AllToken text h)
hex-AllToken (c ∷ text) (inr hc, h) = (omega arith, hex-AllToken text h)

AllToken-AllPrint : (text : List ℕ) → AllToken text → AllPrint text
AllToken-AllPrint [] h = tt
AllToken-AllPrint (c ∷ text) (hc, h) = (omega arith, AllToken-AllPrint text h)

AllPrint-append : (a b : List ℕ) → AllPrint a → AllPrint b → AllPrint (a ++ b)
AllPrint-append [] b ha hb = hb
AllPrint-append (c ∷ a) b (hc, ha) hb = (hc, AllPrint-append a b ha hb)

hex_word-AllToken : (n : ℕ) → AllToken (hex_word n)
unfolding hex_word
hex_word-AllToken n = hex-AllToken (hex 8 n) (hex-AllHex 8 n)

has_digit : (text : List ℕ) (c : ℕ) (s : List ℕ) → text ≡ c ∷ s → 0 < length text
has_digit text c s e = subst (λ t. 0 < length t) (sym e) (omega arith)

hex_word_lengths : (n : ℕ) → (0 < length (hex_word n)) × (length (hex_word n) ≤ 8)
unfolding hex_word
hex_word_lengths n = let (c, s, e) = hex-cons 7 n in (has_digit (hex 8 n) c s e, length-hex 8 n)

strtoul_16-hex_word : (n : ℕ) → IsWord n → strtoul_16 (hex_word n) ≡ n
unfolding hex_word
strtoul_16-hex_word n h = strtoul_16-hex n h

>>=-assoc :
    {A B C : Type 0} (m : Outcome A) (f : A → Outcome B) (g : B → Outcome C)
    → m >>= f >>= g ≡ m >>= λ a. f a >>= g
>>=-assoc (ok a) f g = refl
>>=-assoc (exit c) f g = refl
>>=-assoc unfinished f g = refl
>>=-assoc undefined f g = refl

-- `w`, a blank, a token, a blank and a token.
abbrev pub w_line : List ℕ → List ℕ → List ℕ
w_line a b = b'w' ∷ blank ∷ (a ++ blank ∷ b)

module _ (a b : List ℕ) (ha : AllToken a) (hb : AllToken b) where
  w_line-AllPrint : AllPrint (w_line a b)
  w_line-AllPrint = (
    omega arith,
    (
      omega arith,
      AllPrint-append a (blank ∷ b) (AllToken-AllPrint a ha) (omega arith, AllToken-AllPrint b hb),
    ),
  )

  length-w_line : length a ≤ 8 → length b ≤ 8 → length (w_line a b) < 63
  length-w_line la lb = omega (arith, length-append a (blank ∷ b))

two_tokens :
    (a b : List ℕ)
    → AllToken a
    → AllToken b
    → 0 < length a
    → 0 < length b
    → tokenize 9 (a ++ blank ∷ b) ≡ a ∷ b ∷ []
two_tokens [] b ha hb la lb = absurd (omega arith)
two_tokens (c ∷ a) [] ha hb la lb = absurd (omega arith)
two_tokens (c ∷ a) (d ∷ b) ha hb la lb =
    tokenize-cons 8 c a (d ∷ b) ha ∙ ap (λ l. (c ∷ a) ∷ l) (tokenize_last 6 d b hb)

run_line-w :
    (fuel : ℕ) (host : Host) (state : State) (a b rest : List ℕ)
    → run_line fuel host state ((b'w' ∷ []) ∷ a ∷ b ∷ []) rest
      ≡ write_memory_virtual host.env state (strtoul_16 a) (strtoul_16 b) >>= λ state'.
          ok (next (record { state = some state'; host = host; shown = confirmed }) rest)
unfolding run_line run_command w_command
run_line-w fuel host state a b rest =
    >>=-assoc (write_memory_virtual host.env state (strtoul_16 a) (strtoul_16 b))
      (λ state'. ok (record { state = some state'; host = host; shown = confirmed }))
      (λ after. ok (next after rest))

run_monitor_loop-w_line :
    (fuel : ℕ) (host : Host) (state : State) (a b rest : List ℕ)
    → AllToken a
    → AllToken b
    → 0 < length a
    → 0 < length b
    → length a ≤ 8
    → length b ≤ 8
    → run_monitor_loop fuel host state (w_line a b ++ newline ∷ rest)
      ≡ write_memory_virtual host.env state (strtoul_16 a) (strtoul_16 b) >>= λ state'.
          ok (next (record { state = some state'; host = host; shown = confirmed }) rest)
unfolding run_monitor_loop fgets read_command
run_monitor_loop-w_line fuel host state a b rest ha hb la lb ma mb =
    let printable = w_line-AllPrint a b ha hb in
    ap (λ p. read_command fuel host state (cut_line (p.0)) (p.1))
      (read_line-line (buffer_size - 1) (w_line a b) rest printable (length-w_line a b ha hb ma mb))
    ∙ ap (λ l. read_command fuel host state l rest) (cut_line-line (w_line a b) printable)
    ∙ ap (λ tokens. run_line fuel host state tokens rest)
        (tokenize-cons 9 b'w' [] (a ++ blank ∷ b) (omega arith, tt)
          ∙ ap (λ l. (b'w' ∷ []) ∷ l) (two_tokens a b ha hb la lb))
    ∙ run_line-w fuel host state a b rest

-- For all words, the line `w` with the address and the value in hexadecimal makes the monitor write the
-- value at the address, and the monitor goes on behind the line.
pub run_monitor_loop-hex :
    (fuel : ℕ) (host : Host) (state : State) (address value : ℕ) (rest : List ℕ)
    → IsWord address
    → IsWord value
    → run_monitor_loop fuel host state
        (w_line (hex_word address) (hex_word value) ++ newline ∷ rest)
      ≡ write_memory_virtual host.env state address value >>= λ state'.
          ok (next (record { state = some state'; host = host; shown = confirmed }) rest)
run_monitor_loop-hex fuel host state address value rest ha hv =
    run_monitor_loop-w_line fuel host state (hex_word address) (hex_word value) rest
      (hex_word-AllToken address) (hex_word-AllToken value) (hex_word_lengths address).0
      (hex_word_lengths value).0 (hex_word_lengths address).1 (hex_word_lengths value).1
    ∙ ap (λ a. write_to a (strtoul_16 (hex_word value))) (strtoul_16-hex_word address ha)
    ∙ ap (write_to address) (strtoul_16-hex_word value hv)
  where
    write_to : ℕ → ℕ → Outcome Reply
    write_to a v = write_memory_virtual host.env state a v >>= λ state'.
        ok (next (record { state = some state'; host = host; shown = confirmed }) rest)
