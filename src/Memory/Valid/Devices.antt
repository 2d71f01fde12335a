-- ===== src/Memory/Valid/Devices.antt =====
-- The registers of the devices.
use emuriscv.Base.{
  ℕ, ◌*◌, ◌^◌, arith, bit_and, bit_or, shr, u32, IsWord, if◌then◌else◌, Bool, true, false,
}
use emuriscv.Base.{Holds, Holds-ok, Holds-undefined, Holds-exit, Holds-if}
use emuriscv.Bits.{bit_and_mask}
use emuriscv.Bits.Bounds.{bit_or-lt}
use emuriscv.Machine.{State, RiscVMachine, Environment, Console}
use emuriscv.Machine.Valid.{valid_if, word_if, IsValid, IsQuadword, KeepsValid, update-IsWord}
use emuriscv.Memory.Map.{Device, htif, clint, uart}
use emuriscv.Device.{read_func, write_func}
use emuriscv.Device.Words.{low_word, high_word}
use emuriscv.Device.Clint.{clint_read, clint_write}
use emuriscv.Device.Htif.{htif_read, htif_write, htif_handle_cmd, console_write}
use emuriscv.Device.Uart.{uart_read, uart_write, transmit}

low_word-IsQuadword : (t v : ℕ) → IsWord v → IsQuadword (bit_or (bit_and t 0) v)
low_word-IsQuadword t v h = omega (arith, low_word t v)

high_word-IsQuadword :
    (t v : ℕ) → IsWord v → IsQuadword (bit_or (bit_and t 0xffffffff) (v * 2 ^ 32))
high_word-IsQuadword t v h = omega (arith, high_word t v)

module _ (s : State) (h : IsValid s) where
  timecmp-IsValid :
      (v : ℕ) → IsQuadword v → IsValid (record s { vm = record (s.vm) { timecmp = v } })
  timecmp-IsValid v fits = search

  tohost-IsValid :
      (v : ℕ) → IsQuadword v → IsValid (record s { vm = record (s.vm) { htif_tohost = v } })
  tohost-IsValid v fits = search

  fromhost-IsValid :
      (v : ℕ) → IsQuadword v → IsValid (record s { vm = record (s.vm) { htif_fromhost = v } })
  fromhost-IsValid v fits = search

clint_write-IsValid :
    (env : Environment) (s : State) (offset v : ℕ)
    → KeepsValid env
    → IsValid s
    → IsWord v
    → IsValid (clint_write env s offset v)
unfolding clint_write
clint_write-IsValid env s offset v keeps h fits =
    search (valid_if, keeps.reset, timecmp-IsValid, low_word-IsQuadword, high_word-IsQuadword)

u32-IsWord : (v : ℕ) → IsWord (u32 v)
u32-IsWord v = omega arith

zero-IsWord : IsWord 0
zero-IsWord = omega arith

clint_read-IsWord : (vm : RiscVMachine) (offset : ℕ) → IsWord (clint_read vm offset)
unfolding clint_read
clint_read-IsWord vm offset = search (word_if, u32-IsWord, zero-IsWord)

htif_read-IsWord : (vm : RiscVMachine) (offset : ℕ) → IsWord (htif_read vm offset)
unfolding htif_read
htif_read-IsWord vm offset = search (word_if, u32-IsWord, zero-IsWord)

uart_read-IsWord : (s : State) (offset : ℕ) → IsValid s → Holds IsWord (uart_read s.console offset)
unfolding uart_read
uart_read-IsWord s offset h =
    Holds-if _ _ _ (Holds-ok _ zero-IsWord) (Holds-if _ _ _ (Holds-ok _ (h.uart _)) Holds-undefined)

pub read_func-IsWord :
    (d : Device) (s : State) (offset : ℕ) → IsValid s → Holds IsWord (read_func d s offset)
unfolding read_func
read_func-IsWord htif s offset h = Holds-ok _ (htif_read-IsWord s.vm offset)
read_func-IsWord clint s offset h = Holds-ok _ (clint_read-IsWord s.vm offset)
read_func-IsWord uart s offset h = uart_read-IsWord s offset h

-- The answer of the console device: its number, and the command, in the two high bytes.
answer-IsQuadword :
    (tohost : ℕ)
    → IsQuadword tohost
    → IsQuadword (bit_or (u32 (shr tohost 56) * 2 ^ 56) (bit_and (shr tohost 48) 0xff * 2 ^ 48))
answer-IsQuadword tohost h =
    bit_or-lt 64 _ _ (omega arith) (omega (arith, bit_and_mask 8 (shr tohost 48)))

zero-IsQuadword : IsQuadword 0
zero-IsQuadword = omega arith

sent-IsValid :
    (s : State) (console : Console) (v : ℕ)
    → IsValid s
    → ((i : ℕ) → IsWord (console.uart_reg i))
    → IsQuadword v
    → IsValid
        (record s { console = console; vm = record (s.vm) { htif_tohost = 0; htif_fromhost = v } })
sent-IsValid s console v h k fits = search zero-IsQuadword

htif_handle_cmd-IsValid : (s : State) → IsValid s → Holds IsValid (htif_handle_cmd s)
unfolding htif_handle_cmd console_write
htif_handle_cmd-IsValid s h = Holds-if _ _ _ (Holds-exit _) (
    Holds-if _ _ _
      (Holds-ok _ (sent-IsValid s _ _ h h.uart (answer-IsQuadword s.vm.htif_tohost h.tohost)))
      (Holds-if _ _ _ (Holds-ok _ (tohost-IsValid s h 0 zero-IsQuadword)) (Holds-ok _ h)))

htif_write-IsValid :
    (s : State) (offset v : ℕ) → IsValid s → IsWord v → Holds IsValid (htif_write s offset v)
unfolding htif_write
htif_write-IsValid s offset v h fits =
    Holds-if _ _ _ (Holds-ok _ (tohost-IsValid s h _ (low_word-IsQuadword s.vm.htif_tohost v fits)))
      (Holds-if _ _ _
        (htif_handle_cmd-IsValid _
          (tohost-IsValid s h _ (high_word-IsQuadword s.vm.htif_tohost v fits)))
        (Holds-if _ _ _
          (Holds-ok _ (fromhost-IsValid s h _ (low_word-IsQuadword s.vm.htif_fromhost v fits)))
          (Holds-if _ _ _
            (Holds-ok _ (fromhost-IsValid s h _ (high_word-IsQuadword s.vm.htif_fromhost v fits)))
            (Holds-ok _ h))))

console-IsValid :
    (s : State) (console : Console)
    → IsValid s
    → ((i : ℕ) → IsWord (console.uart_reg i))
    → IsValid (record s { console = console })
console-IsValid s console h k = search

transmit_words :
    (b : Bool) (console sent kept : Console)
    → ((i : ℕ) → IsWord (sent.uart_reg i))
    → ((i : ℕ) → IsWord (kept.uart_reg i))
    → (i : ℕ) → IsWord ((if b then sent else kept).uart_reg i)
transmit_words true console sent kept h k = h
transmit_words false console sent kept h k = k

transmit-IsWord :
    (console : Console) (v : ℕ)
    → ((i : ℕ) → IsWord (console.uart_reg i))
    → (i : ℕ) → IsWord ((transmit console v).uart_reg i)
unfolding transmit
transmit-IsWord console v h = transmit_words _ console _ _ h h

uart_write-IsValid :
    (s : State) (offset v : ℕ) → IsValid s → IsWord v → Holds IsValid (uart_write s offset v)
unfolding uart_write
uart_write-IsValid s offset v h fits =
    let stored = update-IsWord s.console.uart_reg (shr offset 2) v h.uart fits in
    Holds-if _ _ _
      (Holds-ok _ (
        console-IsValid s _ h (transmit_words _ s.console _ _ (transmit-IsWord _ v stored) stored)))
      Holds-undefined

pub write_func-IsValid :
    (env : Environment) (d : Device) (s : State) (offset v : ℕ)
    → KeepsValid env
    → IsValid s
    → IsWord v
    → Holds IsValid (write_func env d s offset v)
unfolding write_func
write_func-IsValid env htif s offset v keeps h fits = htif_write-IsValid s offset v h fits
write_func-IsValid env clint s offset v keeps h fits =
    Holds-ok _ (clint_write-IsValid env s offset v keeps h fits)
write_func-IsValid env uart s offset v keeps h fits = uart_write-IsValid s offset v h fits
