-- ===== src/Boot/Start/Handover.antt =====
-- The boot code as the processor runs it.
use emuriscv.Base.{ℕ, ◌≡◌, ◌<◌, inl, refl, ap, ◌∙◌, arith, true, false, some, add32, ok}
use emuriscv.Machine.{State, Environment, priv_m}
use emuriscv.Memory.Map.{MemoryMap, get_phys_mem_range, in_range}
use emuriscv.Memory.Ram.{read_word_ram, load_byte, load_from}
use emuriscv.Memory.Translate.{get_memory_target, get_memory_target_physical, fetch, found}
use emuriscv.Memory.Translate.Direct.{get_memory_target-direct}
use emuriscv.Cpu.Opcode.{Opcode, matches}
use emuriscv.Cpu.Dispatch.{execute}
use emuriscv.Cpu.Step.{finish_op}
use emuriscv.Cpu.Step.Executes.{emulate_op-execute, finish_op-Keeps}
use emuriscv.Boot.{linux_step, csr_mhartid}
use emuriscv.Boot.Ranges.{ranges}
use emuriscv.Boot.Load.Copy.{low}
use emuriscv.Boot.Load.Image.{boot_image}
use emuriscv.Cpu.Alu.{auipc, addi}
use emuriscv.Cpu.Branch.{jalr}
use emuriscv.Cpu.Csr.{csrrs}
use emuriscv.Base.{sub32, bit_or}
use emuriscv.Machine.{set_rd_value, get_rs1_value, read_csr, write_csr}
use emuriscv.Decode.{get_rd, get_rs1, u_data, get_i_imm, get_i_imm_unsigned, bextr}

-- A state on the way through the boot code: the registers that it uses, and what it relies on.
pub record Boots (map : MemoryMap) (pc t0 a0 a1 : ℕ) (s : State) : Type 0 where
  pub memory : s.memory_map ≡ map
  pub at_pc : s.pc ≡ pc
  pub in_zero : s.x 0 ≡ 0
  pub in_t0 : s.x 5 ≡ t0
  pub in_a0 : s.x 10 ≡ a0
  pub in_a1 : s.x 11 ≡ a1
  pub level : s.privilege ≡ priv_m
  pub quiet : s.has_pending_exception ≡ false
  pub hart : s.csr csr_mhartid ≡ 0

Boots-finish_op :
    {map : MemoryMap} {pc t0 a0 a1 : ℕ} (s : State) (n : State → ℕ)
    → Boots map pc t0 a0 a1 s
    → Boots map pc t0 a0 a1
        (record (finish_op s) { vm = record ((finish_op s).vm) { cycles = n (finish_op s) } })
Boots-finish_op s n b =
    let k = finish_op-Keeps s b.quiet in
    record {
      memory = k.memory ∙ b.memory;
      at_pc = k.pc_kept ∙ b.at_pc;
      in_zero = ap (λ x. x 0) k.registers ∙ b.in_zero;
      in_t0 = ap (λ x. x 5) k.registers ∙ b.in_t0;
      in_a0 = ap (λ x. x 10) k.registers ∙ b.in_a0;
      in_a1 = ap (λ x. x 11) k.registers ∙ b.in_a1;
      level = k.level ∙ b.level;
      quiet = k.quiet;
      hart = k.csrs csr_mhartid (omega arith) (omega arith) ∙ b.hart;
    }

physical_low :
    (h l : ℕ → ℕ) (s : State) (a : ℕ)
    → a < 0x10000
    → s.memory_map ≡ ranges h l
    → get_memory_target_physical s a ≡ some (low a)
unfolding get_memory_target_physical get_phys_mem_range in_range
physical_low h l s a fit e = rw e (ground arith)

module _ (env : Environment) (h l : ℕ → ℕ) where
  -- A word of the low RAM is fetched.
  fetched :
      (pc : ℕ) {t0 a0 a1 : ℕ} (s : State)
      → pc < 0x10000
      → Boots (ranges h l) pc t0 a0 a1 s
      → get_memory_target s s.pc fetch ≡ ok (s, found (low pc))
  fetched pc s fits b =
      get_memory_target-direct s s.pc fetch (low pc) (inl b.level)
        (ap (get_memory_target_physical s) b.at_pc ∙ physical_low h l s pc fits b.memory)

  -- A round of the loop on an instruction that keeps to the boot code's registers.
  round :
      {pc t0 a0 a1 pc' t0' a0' a1' : ℕ} (op : Opcode) (w : ℕ) (s done : State)
      → pc < 0x10000
      → Boots (ranges h l) pc t0 a0 a1 s
      → read_word_ram (ranges h l) (low pc) ≡ ok w
      → matches w op ≡ true
      → execute env op (record s { pc = add32 s.pc 4 }) w ≡ ok done
      → Boots (ranges h l) pc' t0' a0' a1' done
      → (t : State) × (linux_step env s ≡ ok t) × Boots (ranges h l) pc' t0' a0' a1' t
  unfolding linux_step
  round {pc} op w s done fits b word_there m run after = (
    record (finish_op done) {
      vm = record ((finish_op done).vm) { cycles = (finish_op done).instruction_counter };
    },
    rw
        (
          emulate_op-execute env op s s (low pc) w (fetched pc s fits b)
              (ap (λ m'. read_word_ram m' (low pc)) b.memory ∙ word_there) m,
          run,
        )
        refl,
    Boots-finish_op done (λ t. t.instruction_counter) after,
  )

abbrev pub Booting : (ℕ → ℕ) → (ℕ → ℕ) → ℕ → ℕ → ℕ → ℕ → State → Type 0
Booting h l = Boots (ranges h (boot_image l))

-- `auipc t0, 0x7ffff`
pub first_round :
    (env : Environment) (h l : ℕ → ℕ) (s : State)
    → Booting h l 0x1000 0 0 0 s
    → (t : State) × (linux_step env s ≡ ok t) × Booting h l 0x1004 0x80000000 0 0 t
unfolding read_word_ram load_byte load_from matches execute auipc set_rd_value get_rd u_data
first_round env h l s b =
    round env h (boot_image l) Opcode.auipc 0x7ffff297 s
      (auipc (record s { pc = add32 s.pc 4 }) 0x7ffff297) (omega arith) b refl refl refl
      (record {
        memory = b.memory;
        at_pc = ap (λ p. add32 p 4) b.at_pc;
        in_zero = b.in_zero;
        in_t0 = ap (λ p. add32 0x7ffff000 (sub32 (add32 p 4) 4)) b.at_pc;
        in_a0 = b.in_a0;
        in_a1 = b.in_a1;
        level = b.level;
        quiet = b.quiet;
        hart = b.hart;
      })

-- `auipc a1, 0`
pub second_round :
    (env : Environment) (h l : ℕ → ℕ) (s : State)
    → Booting h l 0x1004 0x80000000 0 0 s
    → (t : State) × (linux_step env s ≡ ok t) × Booting h l 0x1008 0x80000000 0 0x1004 t
unfolding read_word_ram load_byte load_from matches execute auipc set_rd_value get_rd u_data
second_round env h l s b =
    round env h (boot_image l) Opcode.auipc 0x597 s (auipc (record s { pc = add32 s.pc 4 }) 0x597)
      (omega arith) b refl refl refl
      (record {
        memory = b.memory;
        at_pc = ap (λ p. add32 p 4) b.at_pc;
        in_zero = b.in_zero;
        in_t0 = b.in_t0;
        in_a0 = b.in_a0;
        in_a1 = ap (λ p. add32 0 (sub32 (add32 p 4) 4)) b.at_pc;
        level = b.level;
        quiet = b.quiet;
        hart = b.hart;
      })

-- `addi a1, a1, 60`
pub third_round :
    (env : Environment) (h l : ℕ → ℕ) (s : State)
    → Booting h l 0x1008 0x80000000 0 0x1004 s
    → (t : State) × (linux_step env s ≡ ok t) × Booting h l 0x100c 0x80000000 0 0x1040 t
unfolding read_word_ram load_byte load_from matches execute addi set_rd_value get_rd get_rs1_value
    get_rs1 get_i_imm bextr
third_round env h l s b =
    round env h (boot_image l) Opcode.addi 0x03c58593 s
      (addi (record s { pc = add32 s.pc 4 }) 0x03c58593) (omega arith) b refl refl refl
      (record {
        memory = b.memory;
        at_pc = ap (λ p. add32 p 4) b.at_pc;
        in_zero = b.in_zero;
        in_t0 = b.in_t0;
        in_a0 = b.in_a0;
        in_a1 = ap (λ a. add32 a 60) b.in_a1;
        level = b.level;
        quiet = b.quiet;
        hart = b.hart;
      })

-- `csrr a0, mhartid`
pub fourth_round :
    (env : Environment) (h l : ℕ → ℕ) (s : State)
    → Booting h l 0x100c 0x80000000 0 0x1040 s
    → (t : State) × (linux_step env s ≡ ok t) × Booting h l 0x1010 0x80000000 0 0x1040 t
unfolding read_word_ram load_byte load_from matches execute csrrs set_rd_value get_rd get_rs1_value
    get_rs1 get_i_imm_unsigned read_csr write_csr
fourth_round env h l s b =
    round env h (boot_image l) Opcode.csrrs 0xf1402573 s
      (csrrs (record s { pc = add32 s.pc 4 }) 0xf1402573) (omega arith) b refl refl refl
      (record {
        memory = b.memory;
        at_pc = ap (λ p. add32 p 4) b.at_pc;
        in_zero = b.in_zero;
        in_t0 = b.in_t0;
        in_a0 = b.hart;
        in_a1 = b.in_a1;
        level = b.level;
        quiet = b.quiet;
        hart = ap (λ v. bit_or v (s.x 0)) b.hart ∙ ap (bit_or 0) b.in_zero;
      })

-- `jalr zero, t0`
pub fifth_round :
    (env : Environment) (h l : ℕ → ℕ) (s : State)
    → Booting h l 0x1010 0x80000000 0 0x1040 s
    → (t : State) × (linux_step env s ≡ ok t) × Booting h l 0x80000000 0x80000000 0 0x1040 t
unfolding read_word_ram load_byte load_from matches execute jalr set_rd_value get_rd get_rs1_value
    get_rs1 get_i_imm bextr
fifth_round env h l s b =
    round env h (boot_image l) Opcode.jalr 0x00028067 s
      (jalr (record s { pc = add32 s.pc 4 }) 0x00028067) (omega arith) b refl refl refl
      (record {
        memory = b.memory;
        at_pc = ap (λ t. add32 t 0) b.in_t0;
        in_zero = b.in_zero;
        in_t0 = b.in_t0;
        in_a0 = b.in_a0;
        in_a1 = b.in_a1;
        level = b.level;
        quiet = b.quiet;
        hart = b.hart;
      })
