-- ===== src/Monitor/Loops.antt =====
-- Which walks of monitor.c over the memory end.
use emuriscv.Base.{
  ℕ, zero, suc, ◌+◌, ◌*◌, ◌^◌, ◌≤◌, ◌<◌, ◌≡◌, arith, lt→ltb, le→ltb, add32, IsWord, [], ◌∷◌, Option,
  none, some, Holds, Holds-ok, Holds-after, Holds-when, Holds-bind, Outcome, ok, ◌>>=◌,
}
use mathlib.Core.Path.{subst, sym}
use emuriscv.Machine.{State}
use emuriscv.Memory.Translate.{Target, get_memory_target, load}
use emuriscv.Memory.Access.{read_word}
use emuriscv.Monitor.{Dump, dump_virtual_from, dump_memory_virtual, bound, word_size}

-- The walk over a number of words from an address on, and what it shows: every word is the one that is
-- read at its address, in the state that the accesses before it left, and the addresses are four apart.
pub data Shows : ℕ → State → ℕ → State → Dump → Type 0 where
  at_end : (s : State) (a : ℕ) → Shows zero s a s []
  shown :
      (count : ℕ) (s translated after final : State) (status : Target) (a value : ℕ) (rest : Dump)
      → get_memory_target s a load ≡ ok (translated, status)
      → read_word translated a ≡ ok (after, value)
      → Shows count after (a + 4) final rest
      → Shows (suc count) s a final ((a, value) ∷ rest)

-- The state after the walk, with the words that were asked for.
abbrev pub Ended : ℕ → State → ℕ → Option State × Dump → Type 0
Ended count s a (none, dump) = ⊥
Ended count s a (some final, dump) = Shows count s a final dump

-- No state, since the fuel was too little.
abbrev pub Endless : Option State × Dump → Type 0
Endless (none, dump) = Unit
Endless (some state, dump) = ⊥

-- A property of the rest of the walk, which holds of the words before it too.
after_read :
    {P Q : Option State × Dump → Type 0} (s : State) (a : ℕ)
    (f : State → Outcome (Option State × Dump))
    → ((s' : State) → Holds P (f s'))
    → ((r : Option State × Dump) (d : ℕ × ℕ) → P r → Q (r.0, d ∷ r.1))
    → Holds Q (
        get_memory_target s a load >>= λ (translated, status).
        read_word translated a >>= λ (s', data').
        f s' >>= λ (final, rest). ok (final, (a, data') ∷ rest))
after_read s a f h k = Holds-after (get_memory_target s a load) _ (λ r.
    Holds-after (read_word (r.0) a) _
      (λ q. Holds-bind (f (q.0)) _ (h (q.0)) (λ p u. Holds-ok _ (k p (a, q.1) u))))

Ended-cons :
    (n : ℕ) (s translated after : State) (status : Target) (a value : ℕ) (r : Option State × Dump)
    → get_memory_target s a load ≡ ok (translated, status)
    → read_word translated a ≡ ok (after, value)
    → Ended n after (a + 4) r
    → Ended (suc n) s a (r.0, (a, value) ∷ r.1)
Ended-cons n s translated after status a value (none, dump) e f h = h
Ended-cons n s translated after status a value (some final, dump) e f h =
    shown n s translated after final status a value dump e f h

Endless-cons : (r : Option State × Dump) (d : ℕ × ℕ) → Endless r → Endless (r.0, d ∷ r.1)
Endless-cons (none, dump) d h = tt
Endless-cons (some s, dump) d h = h

next_address :
    (a count limit : ℕ) → limit ≡ a + suc count * 4 → limit < 2 ^ 32 → add32 a word_size ≡ a + 4
next_address a count limit e small = omega arith

dump_virtual_from-ends :
    (count fuel : ℕ) (s : State) (a limit : ℕ)
    → limit ≡ a + count * 4
    → limit < 2 ^ 32
    → count < fuel
    → Holds (Ended count s a) (dump_virtual_from fuel s a limit)
unfolding dump_virtual_from
dump_virtual_from-ends count zero s a limit e small h = absurd (omega arith)
dump_virtual_from-ends zero (suc fuel) s a limit e small h =
    rw (le→ltb a limit (omega arith)) (Holds-ok _ (at_end s a))
dump_virtual_from-ends (suc count) (suc fuel) s a limit e small h =
    rw (lt→ltb a limit (omega arith)) (
      Holds-when (get_memory_target s a load) _ (λ r at_r.
        Holds-when (read_word (r.0) a) _ (λ q at_q.
          Holds-bind (dump_virtual_from fuel (q.0) (add32 a word_size) limit) _
            (subst (λ b. Holds (Ended count (q.0) (a + 4)) (dump_virtual_from fuel (q.0) b limit))
              (sym (next_address a count limit e small))
              (dump_virtual_from-ends count fuel (q.0) (a + 4) limit (omega arith) small
                (omega arith)))
            (λ p u. Holds-ok _ (Ended-cons count s (r.0) (q.0) (r.1) a (q.1) p at_r at_q u)))))

word_lem : (a : ℕ) → IsWord (add32 a word_size)
word_lem a = omega arith

dump_virtual_from-Endless :
    (fuel : ℕ) (s : State) (a limit : ℕ)
    → IsWord a
    → 2 ^ 32 ≤ limit
    → Holds Endless (dump_virtual_from fuel s a limit)
unfolding dump_virtual_from
dump_virtual_from-Endless zero s a limit w big = Holds-ok _ tt
dump_virtual_from-Endless (suc fuel) s a limit w big = rw (lt→ltb a limit (omega arith)) (
    after_read s a (λ s'. dump_virtual_from fuel s' (add32 a word_size) limit)
      (λ s'. dump_virtual_from-Endless fuel s' (add32 a word_size) limit (word_lem a) big)
      Endless-cons)

-- A walk whose last word ends below 2 ^ 32 ends: with more fuel than words asked for, a walk whose
-- accesses are all defined comes to the state after it and to exactly the words asked for, each with
-- its address and the value that is read there.
pub dump_memory_virtual-ends :
    (count fuel : ℕ) (s : State) (start_address : ℕ)
    → start_address + count * 4 < 2 ^ 32
    → count < fuel
    → Holds (Ended count s start_address) (dump_memory_virtual fuel s start_address count)
unfolding dump_memory_virtual bound
dump_memory_virtual-ends count fuel s start_address small h =
    dump_virtual_from-ends count fuel s start_address _ (omega arith) (omega arith) h

-- A walk that is asked for words up to the end of the address space or past it never ends: the
-- address wraps round and stays below the bound, which does not. Whatever the fuel, a walk whose
-- accesses are all defined has not ended when the fuel is spent.
pub dump_memory_virtual-Endless :
    (count fuel : ℕ) (s : State) (start_address : ℕ)
    → IsWord start_address
    → 2 ^ 32 ≤ start_address + count * 4
    → start_address + count * 4 < 2 ^ 64
    → Holds Endless (dump_memory_virtual fuel s start_address count)
unfolding dump_memory_virtual bound
dump_memory_virtual-Endless count fuel s start_address w big small =
    dump_virtual_from-Endless fuel s start_address _ w (omega arith)
