-- ===== src/Syscalls.antt =====
-- debug_syscalls.h: the names of the system calls that the trace of `ecall` prints.
pub mod Table
use Prim.Native.String.{String}
use emuriscv.Base.{
  ℕ, ◌+◌, ◌==◌, ◌≡◌, ◌≤◌, refl, ap, sym, ◌∙◌, arith, inl, inr, Bool, true, false, ◌&&◌, &&-eq-true,
  ltb, ltb→lt, Bool-cases, if◌then◌else◌, List, [], ◌∷◌, ◌++◌,
}
use emuriscv.Syscalls.Table.{first_syscalls, middle_syscalls, last_syscalls}

abbrev pub syscalls : List (ℕ × String)
syscalls = first_syscalls ++ (middle_syscalls ++ last_syscalls)

-- The `switch` on the cases of a list of rows.
unfoldable pub name_in : List (ℕ × String) → ℕ → String
name_in [] syscall = "unknown-syscall"
name_in ((number, name) ∷ rows) syscall =
    let rest = name_in rows syscall in if syscall == number then name else rest

unfoldable pub syscall_name : ℕ → String
unfolding name_in
syscall_name syscall = name_in syscalls syscall

-- The numbers rise, so that no two cases of the `switch` have one label.
abbrev pub rising : ℕ → List (ℕ × String) → Bool
rising least [] = true
rising least ((number, name) ∷ rows) = ltb least (number + 1) && rising (number + 1) rows

syscalls-rising : rising 0 syscalls ≡ true
syscalls-rising = refl

rising-le :
    (before after : List (ℕ × String)) (least n : ℕ) (name : String)
    → rising least (before ++ (n, name) ∷ after) ≡ true
    → least ≤ n
rising-le [] after least n name h =
    let first = &&-eq-true (ltb least (n + 1)) (rising (n + 1) after) h in
    omega (arith, ltb→lt least (n + 1) (first.0))
rising-le ((m, other) ∷ before) after least n name h =
    let both = &&-eq-true (ltb least (m + 1)) (rising (m + 1) (before ++ (n, name) ∷ after)) h in
    omega (arith, ltb→lt least (m + 1) (both.0), rising-le before after (m + 1) n name (both.1))

name_in-rising :
    (before after : List (ℕ × String)) (least n : ℕ) (name : String)
    → rising least (before ++ (n, name) ∷ after) ≡ true
    → name_in (before ++ (n, name) ∷ after) n ≡ name
unfolding name_in
name_in-rising [] after least n name h = rw (same n) refl
  where
    same : (m : ℕ) → (m == m) ≡ true
    same m = ground arith
name_in-rising ((m, other) ∷ before) after least n name h =
    let both = &&-eq-true (ltb least (m + 1)) (rising (m + 1) (before ++ (n, name) ∷ after)) h in
    rw (apart n m (rising-le before after (m + 1) n name (both.1)))
      (name_in-rising before after (m + 1) n name (both.1))
  where
    apart : (a b : ℕ) → b + 1 ≤ a → (a == b) ≡ false
    apart a b le = ground arith

-- Every row of the list gives its name.
pub syscall_name-row :
    (before after : List (ℕ × String)) (n : ℕ) (name : String)
    → syscalls ≡ before ++ (n, name) ∷ after
    → syscall_name n ≡ name
unfolding syscall_name
syscall_name-row before after n name e =
    ap (λ rows. name_in rows n) e
    ∙ name_in-rising before after 0 n name (ap (rising 0) (sym e) ∙ syscalls-rising)
