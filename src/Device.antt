-- ===== src/Device.antt =====
-- The memory-mapped devices, and the choice of the read and write function of a device range.
pub mod Clint
pub mod Htif
pub mod Uart
pub mod Words
use emuriscv.Base.{ℕ, Outcome, ok}
use emuriscv.Machine.{State, Environment}
use emuriscv.Memory.Map.{Device, htif, clint, uart}
use Clint.{clint_read, clint_write}
use Htif.{htif_read, htif_write}
use Uart.{uart_read, uart_write}

-- `range->read_func(range->opaque, target.ptr, size_log2)`. No read function has an effect.
unfoldable pub read_func : Device → State → ℕ → Outcome ℕ
unfolding clint_read htif_read uart_read
read_func htif state offset = ok (htif_read state.vm offset)
read_func clint state offset = ok (clint_read state.vm offset)
read_func uart state offset = uart_read state.console offset

unfoldable pub write_func : Environment → Device → State → ℕ → ℕ → Outcome State
unfolding clint_write htif_write uart_write
write_func env htif state offset val = htif_write state offset val
write_func env clint state offset val = ok (clint_write env state offset val)
write_func env uart state offset val = uart_write state offset val
