-- ===== src/Device/Clint/Laws.antt =====
-- The timer registers hold what was written to them.
use emuriscv.Base.{ℕ, ◌≡◌, arith, IsWord}
use emuriscv.Device.Words.{low_word, high_word}
use emuriscv.Machine.{State, Environment}
use emuriscv.Device.Clint.{clint_read, clint_write, sifive_timecmp_low, sifive_timecmp_high}

-- `reset_mip` leaves the machine's devices alone.
abbrev pub KeepsDevices : Environment → Type 0
KeepsDevices env = (mask : ℕ) (s : State) → (env.reset_mip mask s).vm ≡ s.vm

-- After a write of the high word of `timecmp`, the high word reads back and the low word is as it
-- was; after a write of the low word, the low word reads back and the high word is 0, whatever it
-- was.
pub clint_read-clint_write :
    (env : Environment) (s : State) (v : ℕ)
    → KeepsDevices env
    → IsWord v
    → let high = (clint_write env s sifive_timecmp_high v).vm in
      let low = (clint_write env s sifive_timecmp_low v).vm in
      (clint_read high sifive_timecmp_high ≡ v)
      × (clint_read high sifive_timecmp_low ≡ clint_read (s.vm) sifive_timecmp_low)
      × (clint_read low sifive_timecmp_low ≡ v)
      × (clint_read low sifive_timecmp_high ≡ 0)
unfolding clint_read clint_write
clint_read-clint_write env s v keeps fits = (
  rw (keeps, high_word s.vm.timecmp v) (omega arith),
  rw (keeps, high_word s.vm.timecmp v) (omega arith),
  rw (keeps, low_word s.vm.timecmp v) (omega arith),
  rw (keeps, low_word s.vm.timecmp v) (omega arith),
)
