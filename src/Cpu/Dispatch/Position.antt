-- ===== src/Cpu/Dispatch/Position.antt =====
-- Every opcode has a test in the chain of `emulate_op`.
use emuriscv.Base.{ℕ, ◌≡◌, refl, some, get_elem?}
use emuriscv.Cpu.Opcode.{Opcode}
use emuriscv.Cpu.Dispatch.{chain}

-- Where the test of `emulate_op` for an opcode stands.
pub position : Opcode → ℕ
position Opcode.add = 0
position Opcode.addi = 1
position Opcode.and = 2
position Opcode.andi = 3
position Opcode.auipc = 4
position Opcode.beq = 5
position Opcode.bge = 6
position Opcode.bgeu = 7
position Opcode.blt = 8
position Opcode.bltu = 9
position Opcode.bne = 10
position Opcode.ebreak = 11
position Opcode.ecall = 12
position Opcode.fence = 13
position Opcode.fence_i = 14
position Opcode.jal = 15
position Opcode.jalr = 16
position Opcode.lb = 17
position Opcode.lbu = 18
position Opcode.lh = 19
position Opcode.lhu = 20
position Opcode.lui = 21
position Opcode.lw = 22
position Opcode.or = 23
position Opcode.ori = 24
position Opcode.sb = 25
position Opcode.sh = 26
position Opcode.sll = 27
position Opcode.slli = 28
position Opcode.slt = 29
position Opcode.slti = 30
position Opcode.sltiu = 31
position Opcode.sltu = 32
position Opcode.sra = 33
position Opcode.srai = 34
position Opcode.srl = 35
position Opcode.srli = 36
position Opcode.sub = 37
position Opcode.sw = 38
position Opcode.xor = 39
position Opcode.xori = 40
position Opcode.wfi = 41
position Opcode.mret = 42
position Opcode.sret = 43
position Opcode.uret = 44
position Opcode.csrrs = 45
position Opcode.csrrw = 46
position Opcode.csrrc = 47
position Opcode.csrrsi = 48
position Opcode.csrrwi = 49
position Opcode.csrrci = 50
position Opcode.amoadd_w = 51
position Opcode.amoor_w = 52
position Opcode.amoand_w = 53
position Opcode.amoxor_w = 54
position Opcode.amoswap_w = 55
position Opcode.lr_w = 56
position Opcode.sc_w = 57
position Opcode.sfence_vma = 58
position Opcode.mul = 59
position Opcode.mulh = 60
position Opcode.mulhsu = 61
position Opcode.mulhu = 62
position Opcode.div = 63
position Opcode.divu = 64
position Opcode.rem = 65
position Opcode.remu = 66

pub get_elem?-position : (op : Opcode) → get_elem? chain (position op) ≡ some op
unfolding chain position
get_elem?-position Opcode.add = refl
get_elem?-position Opcode.addi = refl
get_elem?-position Opcode.and = refl
get_elem?-position Opcode.andi = refl
get_elem?-position Opcode.auipc = refl
get_elem?-position Opcode.beq = refl
get_elem?-position Opcode.bge = refl
get_elem?-position Opcode.bgeu = refl
get_elem?-position Opcode.blt = refl
get_elem?-position Opcode.bltu = refl
get_elem?-position Opcode.bne = refl
get_elem?-position Opcode.ebreak = refl
get_elem?-position Opcode.ecall = refl
get_elem?-position Opcode.fence = refl
get_elem?-position Opcode.fence_i = refl
get_elem?-position Opcode.jal = refl
get_elem?-position Opcode.jalr = refl
get_elem?-position Opcode.lb = refl
get_elem?-position Opcode.lbu = refl
get_elem?-position Opcode.lh = refl
get_elem?-position Opcode.lhu = refl
get_elem?-position Opcode.lui = refl
get_elem?-position Opcode.lw = refl
get_elem?-position Opcode.or = refl
get_elem?-position Opcode.ori = refl
get_elem?-position Opcode.sb = refl
get_elem?-position Opcode.sh = refl
get_elem?-position Opcode.sll = refl
get_elem?-position Opcode.slli = refl
get_elem?-position Opcode.slt = refl
get_elem?-position Opcode.slti = refl
get_elem?-position Opcode.sltiu = refl
get_elem?-position Opcode.sltu = refl
get_elem?-position Opcode.sra = refl
get_elem?-position Opcode.srai = refl
get_elem?-position Opcode.srl = refl
get_elem?-position Opcode.srli = refl
get_elem?-position Opcode.sub = refl
get_elem?-position Opcode.sw = refl
get_elem?-position Opcode.xor = refl
get_elem?-position Opcode.xori = refl
get_elem?-position Opcode.wfi = refl
get_elem?-position Opcode.mret = refl
get_elem?-position Opcode.sret = refl
get_elem?-position Opcode.uret = refl
get_elem?-position Opcode.csrrs = refl
get_elem?-position Opcode.csrrw = refl
get_elem?-position Opcode.csrrc = refl
get_elem?-position Opcode.csrrsi = refl
get_elem?-position Opcode.csrrwi = refl
get_elem?-position Opcode.csrrci = refl
get_elem?-position Opcode.amoadd_w = refl
get_elem?-position Opcode.amoor_w = refl
get_elem?-position Opcode.amoand_w = refl
get_elem?-position Opcode.amoxor_w = refl
get_elem?-position Opcode.amoswap_w = refl
get_elem?-position Opcode.lr_w = refl
get_elem?-position Opcode.sc_w = refl
get_elem?-position Opcode.sfence_vma = refl
get_elem?-position Opcode.mul = refl
get_elem?-position Opcode.mulh = refl
get_elem?-position Opcode.mulhsu = refl
get_elem?-position Opcode.mulhu = refl
get_elem?-position Opcode.div = refl
get_elem?-position Opcode.divu = refl
get_elem?-position Opcode.rem = refl
get_elem?-position Opcode.remu = refl
