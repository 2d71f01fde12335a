-- ===== src/Device/Htif/Laws.antt =====
-- The commands of the host interface: a character to the console, and the end of the emulation.
use emuriscv.Base.{ℕ, ◌+◌, ◌*◌, ◌%◌, ◌^◌, ◌<◌, ◌≡◌, refl, arith, bit_and, bit_or, u32}
use emuriscv.Base.{shr, false, ==_ne, Outcome, ok, exit, ◌>>=◌, ◌∷◌, ◌==◌}
use emuriscv.Bits.{bit_and_mask}
use emuriscv.Device.Words.{low_word, high_word}
use emuriscv.Machine.{State}
use emuriscv.Device.Htif.{htif_read, htif_write, htif_handle_cmd, console_write, exit_poweroff}

-- Both words of `tohost`, the low one first.
abbrev pub send : State → ℕ → ℕ → Outcome State
send s low high = htif_write s 0 low >>= λ s'. htif_write s' 4 high

-- The command of the console, with the character in the low byte.
put_command : ℕ → ℕ
put_command c = 0x01010000 * 2 ^ 32 + c % 2 ^ 32

abbrev after_put : State → ℕ → State
after_put s c = record s {
  console = console_write s.console c;
  vm = record (s.vm) { htif_tohost = 0; htif_fromhost = bit_or (1 * 2 ^ 56) (1 * 2 ^ 48) };
}

handle_put :
    (s : State) (c : ℕ)
    → c < 2 ^ 8
    → htif_handle_cmd (record s { vm = record (s.vm) { htif_tohost = put_command c } })
      ≡ ok (after_put s c)
unfolding htif_handle_cmd put_command console_write
handle_put s c h =
    let t = put_command c in
    let not_off : (t == 1) ≡ false = ==_ne t 1 (λ e. absurd (omega (arith, e))) in
    let device : u32 (shr t 56) ≡ 1 = omega arith in
    let cmd : bit_and (shr t 48) 0xff ≡ 1 = omega (arith, bit_and_mask 8 (shr t 48)) in
    let char : bit_and t 0xff ≡ c = omega (arith, bit_and_mask 8 t) in
    rw (not_off, device, cmd, char) refl

-- The command 1 of device 1 with a character puts it on the console and clears `tohost`; a 1 with
-- nothing above it ends the emulation with the code of a power-off.
pub htif_write-commands :
    (s : State) (c : ℕ)
    → c < 2 ^ 8
    → ((after : State) × (send s c 0x01010000 ≡ ok after)
        × (after.console.stderr ≡ c ∷ s.console.stderr)
        × (htif_read after.vm 0 ≡ 0)
        × (htif_read after.vm 4 ≡ 0))
      × (send s 1 0 ≡ exit exit_poweroff)
unfolding htif_write htif_handle_cmd console_write htif_read put_command
htif_write-commands s c h = (
  (
    after_put s c,
    rw (low_word s.vm.htif_tohost c, high_word c 0x01010000) (handle_put s c h),
    refl,
    refl,
    refl,
  ),
  rw (low_word s.vm.htif_tohost 1) refl,
)
