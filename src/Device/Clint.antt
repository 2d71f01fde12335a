-- ===== src/Device/Clint.antt =====
-- clint.c and clint.h: the timer registers. Every access is taken as one of 32 bits, whatever
-- its size.
pub mod Laws
use emuriscv.Base.{ℕ, ◌*◌, ◌/◌, ◌^◌, bit_and, bit_or, ◌==◌, if◌then◌else◌, u32}
use emuriscv.Machine.{State, RiscVMachine, Environment}

abbrev pub sifive_timecmp_low : ℕ
sifive_timecmp_low = 0x4000

abbrev pub sifive_timecmp_high : ℕ
sifive_timecmp_high = 0x4004

abbrev pub sifive_time_low : ℕ
sifive_time_low = 0xbff8

abbrev pub sifive_time_high : ℕ
sifive_time_high = 0xbffc

abbrev pub mip_mtip : ℕ
mip_mtip = 128

unfoldable pub rtc_get_time : RiscVMachine → ℕ
rtc_get_time vm = vm.cycles

unfoldable pub clint_read : RiscVMachine → ℕ → ℕ
unfolding rtc_get_time
clint_read vm offset =
    if offset == sifive_time_low
    then u32 (rtc_get_time vm)
    else if offset == sifive_time_high
    then u32 (rtc_get_time vm / 2 ^ 32)
    else if offset == sifive_timecmp_low
    then u32 vm.timecmp
    else if offset == sifive_timecmp_high
    then u32 (vm.timecmp / 2 ^ 32)
    else 0

-- `~0xffffffff` is 0, since the constant is an `unsigned int`.
unfoldable pub clint_write : Environment → State → ℕ → ℕ → State
clint_write env state offset val =
    if offset == sifive_timecmp_low
    then env.reset_mip mip_mtip (record state {
      vm = record (state.vm) { timecmp = bit_or (bit_and state.vm.timecmp 0) val };
    })
    else if offset == sifive_timecmp_high
    then env.reset_mip mip_mtip (record state {
      vm = record (state.vm) {
        timecmp = bit_or (bit_and state.vm.timecmp 0xffffffff) (val * 2 ^ 32);
      };
    })
    else state
