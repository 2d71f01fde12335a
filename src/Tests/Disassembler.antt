-- ===== src/Tests/Disassembler.antt =====
-- The lines of two instructions.
use emuriscv.Base.{◌≡◌, some, true}
use emuriscv.Cpu.Opcode.{Opcode}
use emuriscv.Cpu.Branch.{branch_if, jal}
use emuriscv.Disassembler.{print_op}
use emuriscv.Disassembler.Print.{number}
use emuriscv.Disassembler.Laws.{last_argument, advanced, print_op-target}
use emuriscv.Tests.Machines.{zeros, machine}

print_op-target_example :
    (last_argument ((print_op Opcode.beq 0x80000004 0x730863).arguments)
      ≡ some (number ((branch_if true (advanced (machine zeros)) 0x730863).pc)))
    × (last_argument ((print_op Opcode.bne 0x80000004 0x730863).arguments)
        ≡ some (number ((branch_if true (advanced (machine zeros)) 0x730863).pc)))
    × (last_argument ((print_op Opcode.blt 0x80000004 0x730863).arguments)
        ≡ some (number ((branch_if true (advanced (machine zeros)) 0x730863).pc)))
    × (last_argument ((print_op Opcode.bge 0x80000004 0x730863).arguments)
        ≡ some (number ((branch_if true (advanced (machine zeros)) 0x730863).pc)))
    × (last_argument ((print_op Opcode.bltu 0x80000004 0x730863).arguments)
        ≡ some (number ((branch_if true (advanced (machine zeros)) 0x730863).pc)))
    × (last_argument ((print_op Opcode.bgeu 0x80000004 0x730863).arguments)
        ≡ some (number ((branch_if true (advanced (machine zeros)) 0x730863).pc)))
    × (last_argument ((print_op Opcode.jal 0x80000004 0x730863).arguments)
        ≡ some (number ((jal (advanced (machine zeros)) 0x730863).pc)))
print_op-target_example = print_op-target (machine zeros) 0x730863
