-- ===== src/Machine/Registers.antt =====
-- What a write of a register leaves.
use emuriscv.Base.{ℕ, ◌≡◌, refl, arith, ◌==◌, if◌then◌else◌, Bool-cases, inl, inr}
use emuriscv.Machine.{State, get_reg, set_reg}

pub csr-set_reg : (s : State) (i v : ℕ) → (set_reg s i v).csr ≡ s.csr
unfolding set_reg
csr-set_reg s i v = elim (Bool-cases (i == 0)) [ inl e ↦ rw e refl | inr e ↦ rw e refl ]

pub memory_map-set_reg : (s : State) (i v : ℕ) → (set_reg s i v).memory_map ≡ s.memory_map
unfolding set_reg
memory_map-set_reg s i v = elim (Bool-cases (i == 0)) [ inl e ↦ rw e refl | inr e ↦ rw e refl ]

-- Register 0 takes no value.
pub get_reg-set_reg :
    (s : State) (i v j : ℕ)
    → get_reg (set_reg s i v) j ≡ (if i == 0 then s.x j else if j == i then v else s.x j)
unfolding set_reg get_reg
get_reg-set_reg s i v j = elim (Bool-cases (i == 0)) [ inl e ↦ rw e refl | inr e ↦ rw e refl ]

pub set_reg_zero : (s : State) (i v : ℕ) → s.x 0 ≡ 0 → (set_reg s i v).x 0 ≡ 0
unfolding set_reg
set_reg_zero s i v h = elim (Bool-cases (i == 0)) [ inl e ↦ rw e h | inr e ↦ rw e (ground arith) ]
