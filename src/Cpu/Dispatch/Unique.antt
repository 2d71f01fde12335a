-- ===== src/Cpu/Dispatch/Unique.antt =====
-- No instruction word passes two of the tests of `emulate_op`.
use emuriscv.Base.{ℕ, zero, suc, ◌≡◌, refl, sym, ap, ◌∙◌, List, [], ◌∷◌, Bool, true, false}
use emuriscv.Base.{◌&&◌, not, ◌==◌, ==_iff, none, some, get_elem?, inl, inr}
use emuriscv.Base.{bit_and, Bool-cases, exit, &&-eq-true, not-true}
use emuriscv.Bits.{bit_and_comm, bit_and_assoc}
use emuriscv.Machine.{State, Environment}
use emuriscv.Cpu.Opcode.{Opcode, mask, match_bits, matches}
use emuriscv.Cpu.Dispatch.Position.{position, get_elem?-position}
use emuriscv.Cpu.Dispatch.{chain, first_match, execute, dispatch, exit_illegal_instruction}

-- The two patterns fix some common bit differently.
clash : Opcode → Opcode → Bool
unfolding mask match_bits
clash p q = not (bit_and (match_bits p) (mask q) == bit_and (match_bits q) (mask p))

clash_all : Opcode → List Opcode → Bool
clash_all p [] = true
clash_all p (q ∷ ops) = clash p q && clash_all p ops

pairwise_clash : List Opcode → Bool
pairwise_clash [] = true
pairwise_clash (p ∷ ops) = clash_all p ops && pairwise_clash ops

chain_clashes : pairwise_clash chain ≡ true
unfolding pairwise_clash clash_all clash chain
chain_clashes = refl

clash-false : (w : ℕ) (p q : Opcode) → matches w p ≡ true → matches w q ≡ true → clash p q ≡ false
unfolding matches clash
clash-false w p q hp hq =
    let vp : bit_and w (mask p) ≡ match_bits p = (==_iff _ _).0 hp in
    let vq : bit_and w (mask q) ≡ match_bits q = (==_iff _ _).0 hq in
    let swap : bit_and (bit_and w (mask p)) (mask q) ≡ bit_and (bit_and w (mask q)) (mask p) =
      bit_and_assoc w (mask p) (mask q)
      ∙ ap (bit_and w) (bit_and_comm (mask p) (mask q))
      ∙ sym (bit_and_assoc w (mask q) (mask p)) in
    not-true _ (
      (==_iff _ _).1
        (ap (λ m. bit_and m (mask q)) (sym vp) ∙ swap ∙ ap (λ m. bit_and m (mask p)) vq))

some_inj : {p q : Opcode} → some p ≡ some q → p ≡ q
some_inj h = cc

clash_of_mem :
    (p op : Opcode) (ops : List Opcode) (i : ℕ)
    → clash_all p ops ≡ true
    → get_elem? ops i ≡ some op
    → clash p op ≡ true
unfolding clash_all
clash_of_mem p op [] i h g = cc
clash_of_mem p op (q ∷ ops) zero h g = ap (clash p) (some_inj (sym g)) ∙ (&&-eq-true _ _ h).0
clash_of_mem p op (q ∷ ops) (suc i) h g = clash_of_mem p op ops i (&&-eq-true _ _ h).1 g

first_match_of_mem :
    (w : ℕ) (op : Opcode) (ops : List Opcode) (i : ℕ)
    → pairwise_clash ops ≡ true
    → get_elem? ops i ≡ some op
    → matches w op ≡ true
    → first_match w ops ≡ some op
unfolding pairwise_clash first_match
first_match_of_mem w op [] i h g m = cc
first_match_of_mem w op (p ∷ ops) zero h g m =
    let here : matches w p ≡ true = ap (matches w) (some_inj g) ∙ m in rw here g
first_match_of_mem w op (p ∷ ops) (suc i) h g m = elim (Bool-cases (matches w p)) [
  | inl both ↦
      let apart : clash p op ≡ true = clash_of_mem p op ops i (&&-eq-true _ _ h).0 g in
      let met : clash p op ≡ false = clash-false w p op both m in cc
  | inr other ↦ rw other (first_match_of_mem w op ops i (&&-eq-true _ _ h).1 g m)
]

-- The order of the tests in `emulate_op` is of no account: if a word passes the test of an
-- opcode, the handler of that opcode is the one that runs.
pub dispatch-matches :
    (env : Environment) (op : Opcode) (s : State) (w : ℕ)
    → matches w op ≡ true
    → dispatch env s w ≡ execute env op s w
unfolding dispatch
dispatch-matches env op s w m =
    rw
      (
        first_match_of_mem w op chain (position op) chain_clashes (get_elem?-position op) m,
        dispatch,
      )
      refl

-- A word passes the tests of at most one opcode.
pub matches_unique : (w : ℕ) (p q : Opcode) → matches w p ≡ true → matches w q ≡ true → p ≡ q
matches_unique w p q hp hq = some_inj (
    sym (first_match_of_mem w p chain (position p) chain_clashes (get_elem?-position p) hp)
    ∙ first_match_of_mem w q chain (position q) chain_clashes (get_elem?-position q) hq)

first_match-none :
    (w : ℕ) (ops : List Opcode) → ((op : Opcode) → matches w op ≡ false) → first_match w ops ≡ none
unfolding first_match
first_match-none w [] h = refl
first_match-none w (op ∷ ops) h = rw (h op) (first_match-none w ops h)

-- A word that passes no test ends the process with the code of an illegal instruction.
pub dispatch-illegal :
    (env : Environment) (s : State) (w : ℕ)
    → ((op : Opcode) → matches w op ≡ false)
    → dispatch env s w ≡ exit exit_illegal_instruction
unfolding dispatch
dispatch-illegal env s w h = rw (first_match-none w chain h, dispatch) refl

some_ne_none {ℓ} : {A : Type ℓ} (op : Opcode) → some op ≡ none → A
some_ne_none op h = cc

first_match-none_of_mem :
    (w : ℕ) (op : Opcode) (ops : List Opcode) (i : ℕ)
    → first_match w ops ≡ none
    → get_elem? ops i ≡ some op
    → matches w op ≡ false
unfolding first_match
first_match-none_of_mem w op [] i h g = cc
first_match-none_of_mem w op (p ∷ ops) zero h g = elim (Bool-cases (matches w p)) [
  | inl hit ↦ some_ne_none p (sym (rw hit refl) ∙ h)
  | inr miss ↦ ap (matches w) (some_inj (sym g)) ∙ miss
]
first_match-none_of_mem w op (p ∷ ops) (suc i) h g = elim (Bool-cases (matches w p)) [
  | inl hit ↦ some_ne_none p (sym (rw hit refl) ∙ h)
  | inr miss ↦ first_match-none_of_mem w op ops i (sym (rw miss refl) ∙ h) g
]

pub matches-none : (w : ℕ) → first_match w chain ≡ none → (op : Opcode) → matches w op ≡ false
matches-none w h op = first_match-none_of_mem w op chain (position op) h (get_elem?-position op)
