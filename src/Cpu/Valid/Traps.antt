-- ===== src/Cpu/Valid/Traps.antt =====
-- Traps and returns from traps.
use emuriscv.Base.{ℕ, ◌≤◌, arith, bit_and, IsWord, ◌==◌, ◌&&◌, not32, leb}
use emuriscv.Base.{Holds, Holds-ok, Holds-exit, Holds-if, Holds-bind}
use emuriscv.Bits.{bit_and_comm}
use emuriscv.Bits.Bounds.{bit_and-lt, bit_or-lt}
use emuriscv.Machine.{State, Environment, write_csr, priv_m, priv_s, priv_u}
use emuriscv.Machine.Valid.{
  IsValid, KeepsValid, write_csr-IsValid, read_csr-IsWord, valid_if, word_if,
}
use emuriscv.Cpu.Exception.{
  get_field, set_field, trap_to_s, trap_to_m, raise_exception, delegates_to_s, clear_pending, ecall,
  ecall_cause,
}
use emuriscv.Cpu.Exception.{mstatus_spp, mstatus_mpp}
use emuriscv.Cpu.Privileged.{
  pop_mstatus_m, pop_mstatus_s, return_from_m, return_from_s, sret_privilege, mret, sret, uret,
}
use emuriscv.Cpu.Valid.Flow.{pc-IsValid}

set_field-IsWord : (reg mask v : ℕ) → IsWord (set_field reg mask v)
unfolding set_field
set_field-IsWord reg mask v =
    bit_or-lt 32 _ _ (cleared reg (not32 mask) (omega arith)) (bit_and-lt 32 _ _ (omega arith))
  where
    cleared : (a b : ℕ) → IsWord b → IsWord (bit_and a b)
    cleared a b h = omega (arith, bit_and_comm a b, bit_and-lt 32 b a h)

privilege-IsValid : (s : State) (p : ℕ) → IsValid s → p ≤ 3 → IsValid (record s { privilege = p })
privilege-IsValid s p h fits = search

pub pending-IsValid :
    (s : State) (cause : ℕ)
    → IsValid s
    → IsWord cause
    → IsValid (record s { pending_exception = cause })
pending-IsValid s cause h fits = search

module _ (s : State) (cause tval : ℕ) (h : IsValid s) (hc : IsWord cause) (ht : IsWord tval) where
  s_level : priv_s ≤ 3
  s_level = omega arith

  m_level : priv_m ≤ 3
  m_level = omega arith

  trap_to_s-IsValid : IsValid (trap_to_s s cause tval)
  unfolding trap_to_s
  trap_to_s-IsValid =
      let s1 = write_csr-IsValid s _ _ h (omega arith) in
      let s2 = write_csr-IsValid _ _ cause s1 hc in
      let s3 = write_csr-IsValid _ _ tval s2 ht in
      let s4 = pc-IsValid _ _ s3 (read_csr-IsWord _ _ s3) in
      privilege-IsValid _ _ (write_csr-IsValid _ _ _ s4 (set_field-IsWord _ _ _)) s_level

  trap_to_m-IsValid : IsValid (trap_to_m s cause tval)
  unfolding trap_to_m
  trap_to_m-IsValid =
      let s1 = write_csr-IsValid s _ cause h hc in
      let s2 = write_csr-IsValid _ _ _ s1 (omega arith) in
      let s3 = write_csr-IsValid _ _ tval s2 ht in
      let s4 = pc-IsValid _ _ s3 (read_csr-IsWord _ _ s3) in
      privilege-IsValid _ _ (write_csr-IsValid _ _ _ s4 (set_field-IsWord _ _ _)) m_level

clear_pending-IsValid : (s : State) → IsValid s → IsValid (clear_pending s)
unfolding clear_pending
clear_pending-IsValid s h = search zero_word
  where
    zero_word : IsWord 0
    zero_word = omega arith

pub raise_exception-IsValid :
    (s : State) (cause tval : ℕ)
    → IsValid s
    → IsWord cause
    → IsWord tval
    → IsValid (raise_exception s cause tval)
unfolding raise_exception
raise_exception-IsValid s cause tval h hc ht = clear_pending-IsValid _ (
    valid_if (leb s.privilege priv_s && delegates_to_s s cause) _ _
      (trap_to_s-IsValid s cause tval h hc ht) (trap_to_m-IsValid s cause tval h hc ht))

ecall_cause-IsWord : (s : State) → IsValid s → IsWord (ecall_cause s)
unfolding ecall_cause
ecall_cause-IsWord s h = word_if (s.privilege == priv_m) _ _ (omega arith) (
    word_if (s.privilege == priv_s) _ _ (omega arith)
      (word_if (s.privilege == priv_u) _ _ (omega arith) h.pending_cause))

pub ecall-IsValid :
    (env : Environment) (s : State) (w : ℕ)
    → KeepsValid env
    → IsValid s
    → Holds IsValid (ecall env s w)
unfolding ecall
ecall-IsValid env s w keeps h =
    Holds-bind _ _ (Holds-if (s.privilege == priv_u) _ _ (keeps.trace s h) (Holds-ok s h)) (λ t k.
      let cause = ecall_cause-IsWord t k in
      Holds-ok _
        (raise_exception-IsValid _ _ _ (pending-IsValid t _ k cause) cause k.pending_value))

-- The two fields of `mstatus` that hold a privilege have two bits and one bit.
mpp-le : (status : ℕ) → get_field status mstatus_mpp ≤ 3
unfolding get_field
mpp-le status = omega (arith, bit_and_comm status 0x1800, bit_and-lt 13 0x1800 status (omega arith))

spp-le : (status : ℕ) → get_field status mstatus_spp ≤ 3
unfolding get_field
spp-le status = omega (arith, bit_and_comm status 0x100, bit_and-lt 9 0x100 status (omega arith))

returned-IsValid :
    (s : State) (pc p csr v : ℕ)
    → IsValid s
    → IsWord pc
    → p ≤ 3
    → IsWord v
    → IsValid (write_csr (record s { pc = pc; privilege = p }) csr v)
returned-IsValid s pc p csr v h hp fits hv =
    write_csr-IsValid _ csr v (privilege-IsValid _ p (pc-IsValid s pc h hp) fits) hv

module _ (s : State) (w : ℕ) (h : IsValid s) where
  pub mret-IsValid : Holds IsValid (mret s w)
  unfolding mret pop_mstatus_m return_from_m
  mret-IsValid =
      Holds-if (s.privilege == priv_m) _ _
        (Holds-ok _ (
          returned-IsValid s _ _ _ _ h (read_csr-IsWord s _ h) (mpp-le _) (set_field-IsWord _ _ _)))
        (Holds-exit _)

  pub sret-IsValid : Holds IsValid (sret s w)
  unfolding sret pop_mstatus_s return_from_s
  sret-IsValid =
      Holds-if (s.privilege == sret_privilege s) _ _
        (Holds-ok _ (
          returned-IsValid s _ _ _ _ h (read_csr-IsWord s _ h) (spp-le _) (set_field-IsWord _ _ _)))
        (Holds-exit _)

  pub uret-IsValid : IsValid (uret s w)
  unfolding uret
  uret-IsValid = pc-IsValid s _ h (read_csr-IsWord s _ h)
