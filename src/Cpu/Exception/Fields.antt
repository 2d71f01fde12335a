-- ===== src/Cpu/Exception/Fields.antt =====
-- `get_field` and `set_field` on the fields of `mstatus`.
use emuriscv.Base.{ℕ, ◌*◌, ◌/◌, ◌≡◌, ap}
use emuriscv.Base.{bit_and, not32, u32}
use emuriscv.Bits.{bit_and-bit_or-clear, bit_and-bit_or-other}
use emuriscv.Cpu.Exception.{get_field, set_field, mask_low_bit}

-- A write of one field leaves a field with other bits as it was.
pub get_field-set_field_other :
    (reg m v k : ℕ)
    → bit_and (not32 m) k ≡ k
    → bit_and m k ≡ 0
    → get_field (set_field reg m v) k ≡ get_field reg k
unfolding get_field set_field
get_field-set_field_other reg m v k keeps clears =
    ap (λ b. b / mask_low_bit k)
      (bit_and-bit_or-other reg (u32 (v * mask_low_bit m)) m (not32 m) k keeps clears)

-- A field reads back what was written, cut to its bits.
pub get_field-set_field :
    (reg m v : ℕ)
    → bit_and (not32 m) m ≡ 0
    → get_field (set_field reg m v) m ≡ bit_and (u32 (v * mask_low_bit m)) m / mask_low_bit m
unfolding get_field set_field
get_field-set_field reg m v clears =
    ap (λ b. b / mask_low_bit m)
      (bit_and-bit_or-clear reg (u32 (v * mask_low_bit m)) m (not32 m) clears)
