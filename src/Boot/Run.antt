-- ===== src/Boot/Run.antt =====
-- The clock over a run of the machine.
use emuriscv.Base.{ℕ, zero, suc, ◌≡◌, sym, ap, ◌∙◌, Outcome, ok, >>=-ok}
use emuriscv.Machine.{State, Environment}
use emuriscv.Device.Clint.{rtc_get_time}
use emuriscv.Cpu.Step.{emulate_op}
use emuriscv.Boot.{linux_step, run_linux}

abbrev with_clock : State → Outcome State
with_clock s = ok (record s { vm = record (s.vm) { cycles = s.instruction_counter } })

ok_inj : {s t : State} → ok s ≡ ok t → s ≡ t
ok_inj h = cc

linux_step-rtc :
    (env : Environment) (s t : State)
    → linux_step env s ≡ ok t
    → rtc_get_time t.vm ≡ t.instruction_counter
unfolding linux_step rtc_get_time
linux_step-rtc env s t h =
    let (stepped, e, done) = >>=-ok with_clock (emulate_op env s) h in
    let same = ok_inj e in
    ap (λ (r : State). r.vm.cycles) (sym same) ∙ ap (λ (r : State). r.instruction_counter) same

-- After every round of the loop that ends, the clock of the timer device is the number of
-- instructions counted.
pub run_linux-rtc :
    (rounds : ℕ) (env : Environment) (s t : State)
    → run_linux (suc rounds) env s ≡ ok t
    → rtc_get_time t.vm ≡ t.instruction_counter
unfolding run_linux
run_linux-rtc zero env s t h =
    let (stepped, e, done) = >>=-ok (run_linux 0 env) (linux_step env s) h in
    linux_step-rtc env s t (done ∙ e)
run_linux-rtc (suc rounds) env s t h =
    let (stepped, e, done) = >>=-ok (run_linux (suc rounds) env) (linux_step env s) h in
    run_linux-rtc rounds env stepped t e
