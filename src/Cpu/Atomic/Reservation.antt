-- ===== src/Cpu/Atomic/Reservation.antt =====
-- The store conditional, on an address that is not translated.
use emuriscv.Base.{
  ℕ, ◌^◌, ◌%◌, ◌≡◌, ◌≢◌, refl, ap, ◌∙◌, true, arith, ==_ne, ==_iff, some, ok, IsWord, ◌==◌,
}
use emuriscv.Machine.{State, Environment, get_rs1_value, get_rs2_value, set_rd_value}
use emuriscv.Memory.Map.{MemoryMap, MemoryRange}
use emuriscv.Memory.Ram.{MemoryTarget}
use emuriscv.Memory.Ram.RoundTrip.{IsBacked}
use emuriscv.Memory.Translate.{get_memory_target_physical}
use emuriscv.Memory.Translate.Direct.{IsDirect}
use emuriscv.Memory.Access.{read_word, write_word}
use emuriscv.Memory.Access.Laws.{read_common-write_common}
use emuriscv.Cpu.Atomic.{sc, no_reservation}

-- `sc` to an address other than the reserved one stores nothing: it puts 1 into `rd` and drops the
-- reservation.
pub sc-refused :
    (env : Environment) (s : State) (w : ℕ)
    → s.load_reservation ≢ get_rs1_value s w
    → sc env s w ≡ ok (record (set_rd_value s w 1) { load_reservation = no_reservation })
unfolding sc
sc-refused env s w other = rw (==_ne s.load_reservation (get_rs1_value s w) other) refl

-- `sc` to the reserved address, where that is not translated and lies with its four bytes inside a
-- RAM range, stores the word in `rs2`, which a load from that address then reads; it puts 0 into
-- `rd` and drops the reservation.
pub sc-stored :
    (env : Environment) (s : State) (w : ℕ) {target : MemoryTarget} {range : MemoryRange}
    {bytes : ℕ → ℕ}
    → s.load_reservation ≡ get_rs1_value s w
    → IsWord (get_rs2_value s w)
    → IsDirect s
    → get_memory_target_physical s (get_rs1_value s w) ≡ some target
    → IsBacked s.memory_map target range bytes 4
    → (map : MemoryMap) × (sc env s w
        ≡ ok (record (set_rd_value (record s { memory_map = map }) w 0) {
          load_reservation = no_reservation;
        }))
      × (read_word (record s { memory_map = map }) (get_rs1_value s w)
          ≡ ok (record s { memory_map = map }, get_rs2_value s w))
unfolding sc read_word write_word
sc-stored env s w same fits direct at backed =
    let a = get_rs1_value s w in
    let v = get_rs2_value s w in
    let (map, wrote, reads) =
      read_common-write_common env s a v 2 (omega arith) fits direct at backed in
    let reserved : (s.load_reservation == a) ≡ true = (==_iff _ _).1 same in
    let whole : v % 2 ^ 32 ≡ v = omega (arith, fits) in
    (map, rw (reserved, wrote) refl, reads ∙ ap (λ n. ok (record s { memory_map = map }, n)) whole)
