-- ===== src/Memory/Ram/Laws.antt =====
-- What a store of each size leaves for a load of that size, and for every other byte.
use emuriscv.Base.{
  ℕ, zero, suc, ◌+◌, ◌*◌, ◌%◌, ◌^◌, ◌≤◌, ◌<◌, ◌≡◌, ◌≢◌, ◌⊎◌, inl, inr, sym, ap, ◌∙◌, arith,
}
use emuriscv.Base.{ok}
use emuriscv.Memory.Map.{MemoryMap, MemoryRange}
use emuriscv.Memory.Ram.{MemoryTarget, load_byte, read_common_ram, write_common_ram}
use emuriscv.Memory.Ram.{write_case_word, write_case_half, write_case_byte}
use emuriscv.Memory.Ram.RoundTrip.{
  IsBacked, with_bytes, with_bytes_same, stored_byte, stored_half, stored_word,
}
use emuriscv.Memory.Ram.RoundTrip.{write_case_byte-with_bytes, write_case_half-with_bytes}
use emuriscv.Memory.Ram.RoundTrip.{write_case_word-with_bytes, read_word_ram-with_bytes}
use emuriscv.Memory.Ram.RoundTrip.{read_half_ram-with_bytes, load_byte-stored, load_byte-frame}

-- The bytes after a store of `2 ^ size` bytes.
abbrev pub stored : ℕ → ℕ → ℕ → (ℕ → ℕ) → ℕ → ℕ
stored zero o v bytes = stored_byte o v bytes
stored (suc zero) o v bytes = stored_half o v bytes
stored (suc (suc size)) o v bytes = stored_word o v bytes

stored_outside :
    (size o v : ℕ) (bytes : ℕ → ℕ) (j : ℕ)
    → size ≤ 2
    → (j < o) ⊎ (o + 2 ^ size ≤ j)
    → stored size o v bytes j ≡ bytes j
stored_outside zero o v bytes j h out = ground arith
stored_outside (suc zero) o v bytes j h out = ground arith
stored_outside (suc (suc zero)) o v bytes j h out = ground arith
stored_outside (suc (suc (suc size))) o v bytes j h out = absurd (omega arith)

module _ {map : MemoryMap} {target : MemoryTarget} {range : MemoryRange} {bytes : ℕ → ℕ} where
  -- A store inside a RAM range succeeds, with these bytes after it.
  pub write_common_ram_lem :
      (size v : ℕ)
      → size ≤ 2
      → IsBacked map target range bytes (2 ^ size)
      → write_common_ram map target v size
        ≡ ok (with_bytes map target range (stored size target.offset v bytes))
  unfolding write_common_ram
  write_common_ram_lem zero v h b =
      ap (λ m. write_case_byte m target v) (sym (with_bytes_same b))
      ∙ write_case_byte-with_bytes b bytes v (omega arith)
  write_common_ram_lem (suc zero) v h b =
      ap (λ m. write_case_half m target v) (sym (with_bytes_same b))
      ∙ write_case_half-with_bytes b bytes v (omega arith)
  write_common_ram_lem (suc (suc zero)) v h b =
      ap (λ m. write_case_word m target v) (sym (with_bytes_same b))
      ∙ write_case_word-with_bytes b bytes v (omega arith)
  write_common_ram_lem (suc (suc (suc size))) v h b = absurd (omega arith)

  pub read_common_ram-stored :
      (size v : ℕ)
      → size ≤ 2
      → v < 2 ^ 32
      → IsBacked map target range bytes (2 ^ size)
      → read_common_ram
          (with_bytes map target range (stored size target.offset v bytes))
          target
          size
        ≡ ok (v % 2 ^ (8 * 2 ^ size))
  unfolding read_common_ram
  read_common_ram-stored zero v h fits b = load_byte-stored b bytes v (omega arith)
  read_common_ram-stored (suc zero) v h fits b = read_half_ram-with_bytes b bytes v (omega arith)
  read_common_ram-stored (suc (suc zero)) v h fits b =
      read_word_ram-with_bytes b bytes v (omega arith) fits ∙ ap ok (omega arith)
  read_common_ram-stored (suc (suc (suc size))) v h fits b = absurd (omega arith)

-- For a size of 1, 2 or 4 bytes (`size` is its logarithm) inside a RAM range, `write_common_ram`
-- succeeds; `read_common_ram` of that size then gives the value cut to that many bytes; and a byte
-- of another range, or outside the bytes written, reads as before.
pub read_common_ram-write_common_ram :
    {map : MemoryMap} {target : MemoryTarget} {range : MemoryRange} {bytes : ℕ → ℕ} (size v : ℕ)
    (t : MemoryTarget) (i : ℕ)
    → size ≤ 2
    → v < 2 ^ 32
    → IsBacked map target range bytes (2 ^ size)
    → (t.range ≢ target.range)
      ⊎ ((t.offset + i < target.offset) ⊎ (target.offset + 2 ^ size ≤ t.offset + i))
    → (map' : MemoryMap) × (write_common_ram map target v size ≡ ok map')
      × (read_common_ram map' target size ≡ ok (v % 2 ^ (8 * 2 ^ size)))
      × (load_byte map' t i ≡ load_byte map t i)
read_common_ram-write_common_ram {map} {target} {range} {bytes} size v t i h fits b apart = (
  with_bytes map target range (stored size target.offset v bytes),
  write_common_ram_lem size v h b,
  read_common_ram-stored size v h fits b,
  load_byte-frame b (stored size target.offset v bytes) t i untouched,
)
  where
    untouched :
        (t.range ≢ target.range)
        ⊎ (stored size target.offset v bytes (t.offset + i) ≡ bytes (t.offset + i))
    untouched = elim apart [
      | inl other ↦ inl other
      | inr out ↦ inr (stored_outside size target.offset v bytes (t.offset + i) h out)
    ]
