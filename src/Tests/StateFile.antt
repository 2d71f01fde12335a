-- ===== src/Tests/StateFile.antt =====
-- A machine that is saved, and loaded into another.
use emuriscv.Base.{ℕ, ◌≡◌, refl, arith, List, ◌++◌, [], some, ok}
use emuriscv.Machine.{State}
use emuriscv.StateFile.{
  save, save_ranges, save_range, load, fwrite, byte_of, bytes_of_words, state_word, state_size,
}
use emuriscv.StateFile.Words.{IsSaveable}
use emuriscv.StateFile.RoundTrip.{Restored, load-save}
use emuriscv.Tests.Machines.{machine, zeros}
use emuriscv.Tests.Boot.{nops, nop_machine-IsValid}

-- The state, and then the RAM; the timer has no bytes in the file.
abbrev saved : List ℕ
saved =
    fwrite state_size (bytes_of_words (state_word zeros (machine nops))) 0
    ++ (fwrite 4 (byte_of 0x80000000) 0
        ++ (fwrite 4 (byte_of 0x10000) 0 ++ fwrite 0x10000 nops 0)
        ++ [])

machine-saved : save zeros (machine nops) ≡ ok saved
unfolding save save_ranges save_range
machine-saved = refl

nop_machine-IsSaveable : IsSaveable zeros (machine nops)
nop_machine-IsSaveable = record {
  valid = nop_machine-IsValid;
  hart = omega arith;
  filler = λ k. omega arith;
}

load-save_example :
    (r : State) × (load zeros (some saved) (machine zeros) ≡ ok r)
    × Restored (machine nops) (machine zeros) r
load-save_example =
    load-save zeros zeros (machine nops) (machine zeros) saved nop_machine-IsSaveable
      (refl, refl, omega arith, omega arith, refl, (refl, refl, omega arith, omega arith, tt, tt))
      machine-saved
