-- ===== src/Cpu/Opcode.antt =====
-- opcodes.h: the instructions that `emulate_op` knows, each with its MASK_ and MATCH_.
use emuriscv.Base.{ℕ, Bool, bit_and, ◌==◌}

pub data Opcode : Type 0 where
  add addi and andi auipc beq bge bgeu blt bltu bne ebreak ecall fence fence_i jal jalr : Opcode
  lb lbu lh lhu lui lw or ori sb sh sll slli slt slti sltiu sltu sra srai srl srli sub sw : Opcode
  xor xori wfi mret sret uret csrrs csrrw csrrc csrrsi csrrwi csrrci amoadd_w amoor_w : Opcode
  amoand_w amoxor_w amoswap_w lr_w sc_w sfence_vma mul mulh mulhsu mulhu div divu rem : Opcode
  remu : Opcode

unfoldable pub mask : Opcode → ℕ
mask add = 0xfe00707f
mask addi = 0x707f
mask and = 0xfe00707f
mask andi = 0x707f
mask auipc = 0x7f
mask beq = 0x707f
mask bge = 0x707f
mask bgeu = 0x707f
mask blt = 0x707f
mask bltu = 0x707f
mask bne = 0x707f
mask ebreak = 0xffffffff
mask ecall = 0xffffffff
mask fence = 0x707f
mask fence_i = 0x707f
mask jal = 0x7f
mask jalr = 0x707f
mask lb = 0x707f
mask lbu = 0x707f
mask lh = 0x707f
mask lhu = 0x707f
mask lui = 0x7f
mask lw = 0x707f
mask or = 0xfe00707f
mask ori = 0x707f
mask sb = 0x707f
mask sh = 0x707f
mask sll = 0xfe00707f
mask slli = 0xfc00707f
mask slt = 0xfe00707f
mask slti = 0x707f
mask sltiu = 0x707f
mask sltu = 0xfe00707f
mask sra = 0xfe00707f
mask srai = 0xfc00707f
mask srl = 0xfe00707f
mask srli = 0xfc00707f
mask sub = 0xfe00707f
mask sw = 0x707f
mask xor = 0xfe00707f
mask xori = 0x707f
mask wfi = 0xffffffff
mask mret = 0xffffffff
mask sret = 0xffffffff
mask uret = 0xffffffff
mask csrrs = 0x707f
mask csrrw = 0x707f
mask csrrc = 0x707f
mask csrrsi = 0x707f
mask csrrwi = 0x707f
mask csrrci = 0x707f
mask amoadd_w = 0xf800707f
mask amoor_w = 0xf800707f
mask amoand_w = 0xf800707f
mask amoxor_w = 0xf800707f
mask amoswap_w = 0xf800707f
mask lr_w = 0xf9f0707f
mask sc_w = 0xf800707f
mask sfence_vma = 0xfe007fff
mask mul = 0xfe00707f
mask mulh = 0xfe00707f
mask mulhsu = 0xfe00707f
mask mulhu = 0xfe00707f
mask div = 0xfe00707f
mask divu = 0xfe00707f
mask rem = 0xfe00707f
mask remu = 0xfe00707f

unfoldable pub match_bits : Opcode → ℕ
match_bits add = 0x33
match_bits addi = 0x13
match_bits and = 0x7033
match_bits andi = 0x7013
match_bits auipc = 0x17
match_bits beq = 0x63
match_bits bge = 0x5063
match_bits bgeu = 0x7063
match_bits blt = 0x4063
match_bits bltu = 0x6063
match_bits bne = 0x1063
match_bits ebreak = 0x100073
match_bits ecall = 0x73
match_bits fence = 0xf
match_bits fence_i = 0x100f
match_bits jal = 0x6f
match_bits jalr = 0x67
match_bits lb = 0x3
match_bits lbu = 0x4003
match_bits lh = 0x1003
match_bits lhu = 0x5003
match_bits lui = 0x37
match_bits lw = 0x2003
match_bits or = 0x6033
match_bits ori = 0x6013
match_bits sb = 0x23
match_bits sh = 0x1023
match_bits sll = 0x1033
match_bits slli = 0x1013
match_bits slt = 0x2033
match_bits slti = 0x2013
match_bits sltiu = 0x3013
match_bits sltu = 0x3033
match_bits sra = 0x40005033
match_bits srai = 0x40005013
match_bits srl = 0x5033
match_bits srli = 0x5013
match_bits sub = 0x40000033
match_bits sw = 0x2023
match_bits xor = 0x4033
match_bits xori = 0x4013
match_bits wfi = 0x10500073
match_bits mret = 0x30200073
match_bits sret = 0x10200073
match_bits uret = 0x200073
match_bits csrrs = 0x2073
match_bits csrrw = 0x1073
match_bits csrrc = 0x3073
match_bits csrrsi = 0x6073
match_bits csrrwi = 0x5073
match_bits csrrci = 0x7073
match_bits amoadd_w = 0x202f
match_bits amoor_w = 0x4000202f
match_bits amoand_w = 0x6000202f
match_bits amoxor_w = 0x2000202f
match_bits amoswap_w = 0x800202f
match_bits lr_w = 0x1000202f
match_bits sc_w = 0x1800202f
match_bits sfence_vma = 0x12000073
match_bits mul = 0x2000033
match_bits mulh = 0x2001033
match_bits mulhsu = 0x2002033
match_bits mulhu = 0x2003033
match_bits div = 0x2004033
match_bits divu = 0x2005033
match_bits rem = 0x2006033
match_bits remu = 0x2007033

-- `(*instruction & MASK) == MATCH`
unfoldable pub matches : ℕ → Opcode → Bool
unfolding mask match_bits
matches instruction op = bit_and instruction (mask op) == match_bits op
