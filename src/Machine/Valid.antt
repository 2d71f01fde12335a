-- ===== src/Machine/Valid.antt =====
-- What a well-formed state is: every field holds a value of its C type, x0 is zero, and the
-- privilege is one of the two-bit encodings.
use emuriscv.Base.{
  Bool, true, ℕ, ◌^◌, ◌≤◌, ◌<◌, ◌≡◌, arith, IsWord, update, Holds, Bool-cases, inl, inr,
  if◌then◌else◌, ◌==◌, false,
}
use emuriscv.Memory.Map.Bytes.{IsByteMap}
use emuriscv.Machine.{
  State, Environment, set_reg, set_rd_value, write_csr, get_reg, get_rs1_value, get_rs2_value,
  read_csr,
}

abbrev pub IsQuadword : ℕ → Type 0
IsQuadword a = a < 2 ^ 64

pub record IsValid (s : State) : Type 0 where
  pub zero_register : s.x 0 ≡ 0
  pub registers : (i : ℕ) → IsWord (s.x i)
  pub csrs : (i : ℕ) → IsWord (s.csr i)
  pub history : (i : ℕ) → IsWord (s.pc_history i)
  pub uart : (i : ℕ) → IsWord (s.console.uart_reg i)
  pub program_counter : IsWord s.pc
  pub counter : IsWord s.instruction_counter
  pub pending_cause : IsWord s.pending_exception
  pub pending_value : IsWord s.pending_tval
  pub reservation : IsWord s.load_reservation
  pub privilege_fits : s.privilege ≤ 3
  pub bytes : IsByteMap s.memory_map
  pub tohost : IsQuadword s.vm.htif_tohost
  pub fromhost : IsQuadword s.vm.htif_fromhost
  pub compare_time : IsQuadword s.vm.timecmp
  pub cycles : IsQuadword s.vm.cycles

-- A state with the value that a load gives.
pub record IsValidWith (r : State × ℕ) : Type 0 where
  pub state : IsValid (r.0)
  pub value : IsWord (r.1)

-- `reset_mip` and the part of `ecall` for user mode keep the state well-formed.
pub record KeepsValid (env : Environment) : Type 0 where
  pub reset : (mask : ℕ) (s : State) → IsValid s → IsValid (env.reset_mip mask s)
  pub trace : (s : State) → IsValid s → Holds IsValid (env.trace_ecall s)

pub update-IsWord :
    (f : ℕ → ℕ) (i v : ℕ) → ((j : ℕ) → IsWord (f j)) → IsWord v → (j : ℕ) → IsWord (update f i v j)
update-IsWord f i v all fits j = ground (arith, all j)

-- A write to x0 is dropped.
update_zero : (f : ℕ → ℕ) (i v : ℕ) → f 0 ≡ 0 → (i == 0) ≡ false → update f i v 0 ≡ 0
update_zero f i v h ne = ground arith

set_x :
    {s : State} (i v : ℕ)
    → IsValid s
    → IsWord v
    → (i == 0) ≡ false
    → IsValid (record s { x = update s.x i v })
set_x i v h fits e = search (update-IsWord, update_zero)

pub set_reg-IsValid : (s : State) (i v : ℕ) → IsValid s → IsWord v → IsValid (set_reg s i v)
unfolding set_reg
set_reg-IsValid s i v h fits = elim (Bool-cases (i == 0)) [
  | inl e ↦ rw e h
  | inr e ↦ rw e (set_x i v h fits e)
]

pub set_rd_value-IsValid :
    (s : State) (w v : ℕ) → IsValid s → IsWord v → IsValid (set_rd_value s w v)
unfolding set_rd_value
set_rd_value-IsValid s w v h fits = set_reg-IsValid s _ v h fits

pub write_csr-IsValid : (s : State) (csr v : ℕ) → IsValid s → IsWord v → IsValid (write_csr s csr v)
unfolding write_csr
write_csr-IsValid s csr v h fits = search update-IsWord

pub get_rs1_value-IsWord : (s : State) (w : ℕ) → IsValid s → IsWord (get_rs1_value s w)
unfolding get_rs1_value get_reg
get_rs1_value-IsWord s w h = h.registers _

pub get_rs2_value-IsWord : (s : State) (w : ℕ) → IsValid s → IsWord (get_rs2_value s w)
unfolding get_rs2_value get_reg
get_rs2_value-IsWord s w h = h.registers _

pub read_csr-IsWord : (s : State) (csr : ℕ) → IsValid s → IsWord (read_csr s csr)
unfolding read_csr
read_csr-IsWord s csr h = h.csrs csr

pub valid_if : (b : Bool) (s t : State) → IsValid s → IsValid t → IsValid (if b then s else t)
valid_if true s t h k = h
valid_if false s t h k = k

pub word_if : (b : Bool) (v w : ℕ) → IsWord v → IsWord w → IsWord (if b then v else w)
word_if true v w h k = h
word_if false v w h k = k
