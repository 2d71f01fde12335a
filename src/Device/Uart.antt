-- ===== src/Device/Uart.antt =====
-- The UART registers of run_linux.c. `uart_reg` has seven entries, and the device range holds 64
-- words: an index past the array is undefined.
use emuriscv.Base.{ℕ, ◌+◌, ◌%◌, ◌^◌, ◌==◌, ltb, ◌||◌, if◌then◌else◌, update, ◌∷◌, u8, shr}
use emuriscv.Base.{Outcome, ok, undefined}
use emuriscv.Machine.{State, Console}

abbrev pub uart_reg_txfifo : ℕ
uart_reg_txfifo = 0

abbrev pub uart_registers : ℕ
uart_registers = 7

unfoldable pub uart_read : Console → ℕ → Outcome ℕ
uart_read console offset =
    let offset_words = shr offset 2 in
    if offset_words == uart_reg_txfifo
    then ok 0
    else if ltb offset_words uart_registers
    then ok (console.uart_reg offset_words)
    else undefined

-- `fputc` writes the value as an `unsigned char`.
unfoldable pub transmit : Console → ℕ → Console
transmit console val =
    if val == 0 || (val == 0x40 || val == 0x5e)
    then record console { uart_skipped = (console.uart_skipped + 1) % 2 ^ 64 }
    else record console { stderr = u8 val ∷ console.stderr }

unfoldable pub uart_write : State → ℕ → ℕ → Outcome State
unfolding transmit
uart_write state offset val =
    let offset_words = shr offset 2 in
    let console = record (state.console) {
      uart_reg = update state.console.uart_reg offset_words val;
    } in
    if ltb offset_words uart_registers
    then ok (record state {
      console = if offset_words == uart_reg_txfifo then transmit console val else console;
    })
    else undefined
