-- ===== src/Cpu/Valid/Memory.antt =====
-- The loads, the stores and the atomic operations.
use emuriscv.Base.{ℕ, arith, bit_and, bit_or, bit_xor, IsWord, ◌==◌, add32}
use emuriscv.Base.{Holds, Holds-ok, Holds-if, Holds-bind, ok, Outcome, ◌>>=◌}
use emuriscv.Bits.Bounds.{bit_and-lt, bit_or-lt, bit_xor-lt}
use emuriscv.Machine.{State, Environment, get_rs1_value}
use emuriscv.Machine.Valid.{
  valid_if, IsValid, IsValidWith, KeepsValid, set_rd_value-IsValid, get_rs1_value-IsWord,
  get_rs2_value-IsWord,
}
use emuriscv.Memory.Valid.Access.{
  read_word-IsValid, read_halfword_signed-IsValid, read_halfword_unsigned-IsValid,
  read_byte_signed-IsValid, read_byte_unsigned-IsValid, write_word-IsValid, write_halfword-IsValid,
  write_byte-IsValid,
}
use emuriscv.Cpu.LoadStore.{finish_load, lb, lbu, lh, lhu, lw, sb, sh, sw}
use emuriscv.Cpu.Atomic.{amo_op_w, amoadd_w, amoand_w, amoor_w, amoxor_w, amoswap_w, lr, sc}

finish_load-IsValid :
    (w : ℕ) (s : State) (v : ℕ) → IsValid s → IsWord v → IsValid (finish_load w s v)
unfolding finish_load
finish_load-IsValid w s v h fits =
    valid_if (s.pending_exception == 0) _ _ (set_rd_value-IsValid s w v h fits) h

loaded :
    (w : ℕ) (m : Outcome (State × ℕ))
    → Holds IsValidWith m
    → Holds IsValid (m >>= λ (s', v). ok (finish_load w s' v))
loaded w m h =
    Holds-bind _ _ h (λ r k. Holds-ok _ (finish_load-IsValid w (r.0) (r.1) k.state k.value))

module _ (s : State) (w : ℕ) (h : IsValid s) where
  pub lb-IsValid : Holds IsValid (lb s w)
  unfolding lb
  lb-IsValid = loaded w _ (read_byte_signed-IsValid s _ (omega arith) h)

  pub lbu-IsValid : Holds IsValid (lbu s w)
  unfolding lbu
  lbu-IsValid = loaded w _ (read_byte_unsigned-IsValid s _ (omega arith) h)

  pub lh-IsValid : Holds IsValid (lh s w)
  unfolding lh
  lh-IsValid = loaded w _ (read_halfword_signed-IsValid s _ (omega arith) h)

  pub lhu-IsValid : Holds IsValid (lhu s w)
  unfolding lhu
  lhu-IsValid = loaded w _ (read_halfword_unsigned-IsValid s _ (omega arith) h)

  pub lw-IsValid : Holds IsValid (lw s w)
  unfolding lw
  lw-IsValid = loaded w _ (read_word-IsValid s _ (omega arith) h)

module _ (env : Environment) (s : State) (w : ℕ) (keeps : KeepsValid env) (h : IsValid s) where
  pub sb-IsValid : Holds IsValid (sb env s w)
  unfolding sb
  sb-IsValid = write_byte-IsValid env s _ _ keeps h (omega arith) (get_rs2_value-IsWord s w h)

  pub sh-IsValid : Holds IsValid (sh env s w)
  unfolding sh
  sh-IsValid = write_halfword-IsValid env s _ _ keeps h (omega arith) (get_rs2_value-IsWord s w h)

  pub sw-IsValid : Holds IsValid (sw env s w)
  unfolding sw
  sw-IsValid = write_word-IsValid env s _ _ keeps h (omega arith) (get_rs2_value-IsWord s w h)

  amo_op_w-IsValid :
      (op : ℕ → ℕ → ℕ)
      → ((a b : ℕ) → IsWord a → IsWord b → IsWord (op a b))
      → Holds IsValid (amo_op_w op env s w)
  unfolding amo_op_w
  amo_op_w-IsValid op fits =
      let at = get_rs1_value-IsWord s w h in
      Holds-bind _ _ (read_word-IsValid s _ at h) (λ r k.
        Holds-bind _ _
          (write_word-IsValid env (r.0) _ _ keeps k.state at
            (fits (r.1) _ k.value (get_rs2_value-IsWord (r.0) w k.state)))
          (λ t l. Holds-ok _ (set_rd_value-IsValid t w (r.1) l k.value)))

  pub amoadd_w-IsValid : Holds IsValid (amoadd_w env s w)
  unfolding amoadd_w
  amoadd_w-IsValid = amo_op_w-IsValid add32 (λ a b fa fb. omega arith)

  pub amoand_w-IsValid : Holds IsValid (amoand_w env s w)
  unfolding amoand_w
  amoand_w-IsValid = amo_op_w-IsValid bit_and (λ a b fa fb. bit_and-lt 32 a b fa)

  pub amoor_w-IsValid : Holds IsValid (amoor_w env s w)
  unfolding amoor_w
  amoor_w-IsValid = amo_op_w-IsValid bit_or (λ a b fa fb. bit_or-lt 32 a b fa fb)

  pub amoxor_w-IsValid : Holds IsValid (amoxor_w env s w)
  unfolding amoxor_w
  amoxor_w-IsValid = amo_op_w-IsValid bit_xor (λ a b fa fb. bit_xor-lt 32 a b fa fb)

  pub amoswap_w-IsValid : Holds IsValid (amoswap_w env s w)
  unfolding amoswap_w
  amoswap_w-IsValid =
      let at = get_rs1_value-IsWord s w h in
      Holds-bind _ _ (read_word-IsValid s _ at h) (λ r k.
        let put = set_rd_value-IsValid (r.0) w (r.1) k.state k.value in
        write_word-IsValid env _ _ _ keeps put at (get_rs2_value-IsWord _ w put))

reserved-IsValid :
    (s : State) (v : ℕ) → IsValid s → IsWord v → IsValid (record s { load_reservation = v })
reserved-IsValid s v h fits = search

module _ (s : State) (w : ℕ) (h : IsValid s) where
  pub lr-IsValid : Holds IsValid (lr s w)
  unfolding lr
  lr-IsValid =
      let at = get_rs1_value-IsWord s w h in
      Holds-bind _ _ (read_word-IsValid s _ at h) (λ r k.
        Holds-ok _ (reserved-IsValid _ _ (set_rd_value-IsValid (r.0) w (r.1) k.state k.value) at))

  pub sc-IsValid : (env : Environment) → KeepsValid env → Holds IsValid (sc env s w)
  unfolding sc
  sc-IsValid env keeps =
      let at = get_rs1_value-IsWord s w h in
      let stored =
        Holds-bind _ _ (write_word-IsValid env s _ _ keeps h at (get_rs2_value-IsWord s w h))
          (λ t k. Holds-ok _ (set_rd_value-IsValid t w 0 k (omega arith))) in
      Holds-bind _ _
        (Holds-if (s.load_reservation == get_rs1_value s w) _ _ stored
          (Holds-ok _ (set_rd_value-IsValid s w 1 h (omega arith))))
        (λ t k. Holds-ok _ (reserved-IsValid t _ k (omega arith)))
