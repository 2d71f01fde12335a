-- ===== src/Memory/Access/Laws.antt =====
-- Loads after stores through the functions that the CPU calls, at addresses that are not
-- translated.
use emuriscv.Base.{ℕ, ◌*◌, ◌%◌, ◌^◌, ◌≤◌, ◌<◌, ◌≡◌, refl, arith, some}
use emuriscv.Base.{ok, ◌>>=◌}
use emuriscv.Machine.{State, Environment}
use emuriscv.Memory.Map.{MemoryMap, MemoryRange}
use emuriscv.Memory.Ram.{MemoryTarget, read_common_ram, write_common_ram}
use emuriscv.Memory.Ram.RoundTrip.{IsBacked, with_bytes, with_bytes-IsBacked}
use emuriscv.Memory.Ram.Laws.{stored, write_common_ram_lem, read_common_ram-stored}
use emuriscv.Memory.Translate.{get_memory_target_physical, load, store}
use emuriscv.Memory.Translate.Direct.{IsDirect, IsDirect-memory_map, get_memory_target-direct}
use emuriscv.Memory.Translate.Direct.{get_memory_target_physical-with_bytes}
use emuriscv.Memory.Access.{read_target, write_target, read_common, write_common}

module _ (state : State) {target : MemoryTarget} {range : MemoryRange} {bytes : ℕ → ℕ} (size : ℕ)
    (b : IsBacked state.memory_map target range bytes (2 ^ size)) where
  pub read_target-ram : read_target state target size ≡ read_common_ram state.memory_map target size
  unfolding read_target
  read_target-ram = ground (arith, b.there, b.is_ram)

  pub write_target-ram :
      (env : Environment) (v : ℕ)
      → write_target env state target v size ≡ (
          write_common_ram state.memory_map target v size >>= λ map.
          ok (record state { memory_map = map }))
  unfolding write_target
  write_target-ram env v = ground (arith, b.there, b.is_ram)

abbrev with_map : State → (ℕ → ℕ) → MemoryTarget → MemoryRange → State
with_map state bytes target range = record state {
  memory_map = with_bytes state.memory_map target range bytes;
}

module _ (state : State) (a : ℕ) {target : MemoryTarget} {range : MemoryRange} {bytes : ℕ → ℕ}
    (size : ℕ) (small : size ≤ 2) (b : IsBacked state.memory_map target range bytes (2 ^ size))
    (direct : IsDirect state) (at : get_memory_target_physical state a ≡ some target) where
  write_common-direct :
      (env : Environment) (v : ℕ)
      → write_common env state a v size
        ≡ ok (with_map state (stored size target.offset v bytes) target range)
  unfolding write_common
  write_common-direct env v =
      rw
        (
          get_memory_target-direct state a store target direct at,
          write_target-ram state size b env v,
          write_common_ram_lem size v small b,
        )
        refl

  read_common-direct :
      (v : ℕ)
      → v < 2 ^ 32
      → let after = with_map state (stored size target.offset v bytes) target range in
        read_common after a size ≡ ok (after, v % 2 ^ (8 * 2 ^ size))
  unfolding read_common
  read_common-direct v fits =
      let other = stored size target.offset v bytes in
      let after = with_map state other target range in
      let direct' = IsDirect-memory_map state after.memory_map direct in
      let moved = get_memory_target_physical-with_bytes state a other b at in
      rw
        (
          get_memory_target-direct after a load target direct' moved,
          read_target-ram after size (with_bytes-IsBacked b other),
          read_common_ram-stored size v small fits b,
        )
        refl

-- At an address that is not translated and that lies, with the bytes accessed, inside a RAM range,
-- a store of 1, 2 or 4 bytes succeeds and changes nothing of the state but the memory; the load of
-- that size from that address then gives the value cut to the size, and leaves the state alone.
pub read_common-write_common :
    (env : Environment) (state : State) (a v size : ℕ) {target : MemoryTarget} {range : MemoryRange}
    {bytes : ℕ → ℕ}
    → size ≤ 2
    → v < 2 ^ 32
    → IsDirect state
    → get_memory_target_physical state a ≡ some target
    → IsBacked state.memory_map target range bytes (2 ^ size)
    → (map : MemoryMap) × (write_common env state a v size ≡ ok (record state { memory_map = map }))
      × (read_common (record state { memory_map = map }) a size
          ≡ ok (record state { memory_map = map }, v % 2 ^ (8 * 2 ^ size)))
read_common-write_common env state a v size {target} {range} {bytes} small fits direct at b = (
  with_bytes state.memory_map target range (stored size target.offset v bytes),
  write_common-direct state a size small b direct at env v,
  read_common-direct state a size small b direct at v fits,
)
