-- ===== src/Device/Htif.antt =====
-- The HTIF registers of run_linux.c: the host's console and the power switch.
pub mod Laws
use emuriscv.Base.{ℕ, ◌*◌, ◌/◌, ◌^◌, bit_and, bit_or, ◌==◌, ◌&&◌, if◌then◌else◌, u32}
use emuriscv.Base.{shr, ◌∷◌, Outcome, ok, exit}
use emuriscv.Machine.{State, RiscVMachine, Console}

abbrev pub exit_poweroff : ℕ
exit_poweroff = 0

unfoldable pub htif_read : RiscVMachine → ℕ → ℕ
htif_read s offset =
    if offset == 0
    then u32 s.htif_tohost
    else if offset == 4
    then u32 (s.htif_tohost / 2 ^ 32)
    else if offset == 8
    then u32 s.htif_fromhost
    else if offset == 12
    then u32 (s.htif_fromhost / 2 ^ 32)
    else 0

-- One character to `stderr`.
unfoldable pub console_write : Console → ℕ → Console
console_write console c = record console { stderr = c ∷ console.stderr }

unfoldable pub htif_handle_cmd : State → Outcome State
unfolding console_write
htif_handle_cmd state =
    let tohost = state.vm.htif_tohost in
    let device = u32 (shr tohost 56) in
    let cmd = bit_and (shr tohost 48) 0xff in
    if tohost == 1
    then exit exit_poweroff
    else if device == 1 && cmd == 1
    then ok (record state {
      console = console_write state.console (bit_and tohost 0xff);
      vm = record (state.vm) {
        htif_tohost = 0;
        htif_fromhost = bit_or (device * 2 ^ 56) (cmd * 2 ^ 48);
      };
    })
    else if device == 1 && cmd == 0
    then ok (record state { vm = record (state.vm) { htif_tohost = 0 } })
    else ok state

-- As in clint.c, `~0xffffffff` is 0.
unfoldable pub htif_write : State → ℕ → ℕ → Outcome State
htif_write state offset val =
    let s = state.vm in
    if offset == 0
    then ok (record state { vm = record s { htif_tohost = bit_or (bit_and s.htif_tohost 0) val } })
    else if offset == 4
    then htif_handle_cmd (record state {
      vm = record s { htif_tohost = bit_or (bit_and s.htif_tohost 0xffffffff) (val * 2 ^ 32) };
    })
    else if offset == 8
    then ok
        (record state { vm = record s { htif_fromhost = bit_or (bit_and s.htif_fromhost 0) val } })
    else if offset == 12
    then ok (record state {
      vm = record s { htif_fromhost = bit_or (bit_and s.htif_fromhost 0xffffffff) (val * 2 ^ 32) };
    })
    else ok state
