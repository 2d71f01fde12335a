-- ===== src/Memory/Ram/RoundTrip.antt =====
-- A load gives back what a store of the same size wrote, and a store changes no other byte.
use emuriscv.Base.{ℕ, ◌+◌, ◌/◌, ◌%◌, ◌^◌, ◌≤◌, ◌<◌, ◌≡◌, ◌≢◌, ◌⊎◌, refl, sym, ap, ◌∙◌, arith}
use emuriscv.Base.{some, get_elem?, set, set-set, set_same, get_elem?-set_self, update}
use emuriscv.Base.{ok}
use emuriscv.Bits.{bit_and_mask}
use native.Mathlib.Decide.{ℕ_discrete}
use emuriscv.Base.{get_elem?-set_ne}
use emuriscv.Memory.Map.{MemoryMap, MemoryRange, ram}
use emuriscv.Memory.Ram.{MemoryTarget, load_byte, store_byte, load_from, store_to, read_word_ram}
use emuriscv.Memory.Ram.{read_half_ram, write_case_word}
use emuriscv.Memory.Ram.{write_case_half, write_case_byte}
use emuriscv.Memory.Ram.Bytes.{byte_1, byte_2, byte_3, join_half, join_word}

-- The target points at `count` bytes inside a RAM range with the given bytes.
pub record IsBacked (map : MemoryMap) (target : MemoryTarget) (range : MemoryRange) (bytes : ℕ → ℕ)
    (count : ℕ) : Type 0 where
  pub there : get_elem? map target.range ≡ some range
  pub is_ram : range.backing ≡ ram bytes
  pub inside : target.offset + count ≤ range.size

-- The map with other bytes in the range of the target.
unfoldable pub with_bytes : MemoryMap → MemoryTarget → MemoryRange → (ℕ → ℕ) → MemoryMap
with_bytes map target range bytes = set map target.range (record range { backing = ram bytes })

-- The bytes after a store of each size.
abbrev pub stored_byte : ℕ → ℕ → (ℕ → ℕ) → ℕ → ℕ
stored_byte o v bytes = update bytes (o + 0) (v % 2 ^ 8)

abbrev pub stored_half : ℕ → ℕ → (ℕ → ℕ) → ℕ → ℕ
stored_half o v bytes = stored_byte o v (update bytes (o + 1) (v / 2 ^ 8 % 2 ^ 8))

abbrev pub stored_word : ℕ → ℕ → (ℕ → ℕ) → ℕ → ℕ
stored_word o v bytes =
    stored_half o v
      (update (update bytes (o + 3) (v / 2 ^ 24 % 2 ^ 8)) (o + 2) (v / 2 ^ 16 % 2 ^ 8))

module _ {map : MemoryMap} {target : MemoryTarget} {range : MemoryRange} {bytes : ℕ → ℕ} {count : ℕ}
    (backed : IsBacked map target range bytes count) where
  pub with_bytes_same : with_bytes map target range bytes ≡ map
  unfolding with_bytes
  with_bytes_same =
      set_same map target.range (record range { backing = ram bytes })
        (backed.there ∙ λ i.
          some (record { address = range.address; size = range.size; backing = backed.is_ram i }))

  pub get_elem?-with_bytes :
      (other : ℕ → ℕ)
      → get_elem? (with_bytes map target range other) target.range
        ≡ some (record range { backing = ram other })
  unfolding with_bytes
  get_elem?-with_bytes other = get_elem?-set_self map target.range _ range backed.there

  pub with_bytes-IsBacked :
      (other : ℕ → ℕ)
      → IsBacked
          (with_bytes map target range other)
          target
          (record range { backing = ram other })
          other
          count
  with_bytes-IsBacked other = record {
    there = get_elem?-with_bytes other;
    is_ram = refl;
    inside = backed.inside;
  }

  load_byte-with_bytes :
      (other : ℕ → ℕ) (i : ℕ)
      → i < count
      → load_byte (with_bytes map target range other) target i ≡ ok (other (target.offset + i))
  unfolding load_byte load_from
  load_byte-with_bytes other i h = ground (arith, get_elem?-with_bytes other, backed.inside)

  store_byte-with_bytes :
      (other : ℕ → ℕ) (i v : ℕ)
      → i < count
      → store_byte (with_bytes map target range other) target i v
        ≡ ok (with_bytes map target range (update other (target.offset + i) v))
  unfolding store_byte store_to with_bytes
  store_byte-with_bytes other i v h = ground (
    arith,
    get_elem?-set_self map target.range (record range { backing = ram other }) range backed.there,
    set-set map target.range (record range { backing = ram other })
        (record range { backing = ram (update other (target.offset + i) v) }),
    backed.inside,
  )

  pub write_case_byte-with_bytes :
      (other : ℕ → ℕ) (v : ℕ)
      → 0 < count
      → write_case_byte (with_bytes map target range other) target v
        ≡ ok (with_bytes map target range (stored_byte target.offset v other))
  unfolding write_case_byte
  write_case_byte-with_bytes other v h =
      rw (bit_and_mask 8 v) (store_byte-with_bytes other 0 (v % 2 ^ 8) h)

  pub write_case_half-with_bytes :
      (other : ℕ → ℕ) (v : ℕ)
      → 1 < count
      → write_case_half (with_bytes map target range other) target v
        ≡ ok (with_bytes map target range (stored_half target.offset v other))
  unfolding write_case_half
  write_case_half-with_bytes other v h =
      rw (byte_1 v, store_byte-with_bytes other 1 (v / 2 ^ 8 % 2 ^ 8) h)
        (write_case_byte-with_bytes _ v (omega arith))

  pub write_case_word-with_bytes :
      (other : ℕ → ℕ) (v : ℕ)
      → 3 < count
      → write_case_word (with_bytes map target range other) target v
        ≡ ok (with_bytes map target range (stored_word target.offset v other))
  unfolding write_case_word
  write_case_word-with_bytes other v h =
      rw
        (
          byte_3 v,
          store_byte-with_bytes other 3 (v / 2 ^ 24 % 2 ^ 8) h,
          byte_2 v,
          store_byte-with_bytes _ 2 (v / 2 ^ 16 % 2 ^ 8) (omega arith),
        )
        (write_case_half-with_bytes _ v (omega arith))

  pub read_word_ram-with_bytes :
      (other : ℕ → ℕ) (v : ℕ)
      → 3 < count
      → v < 2 ^ 32
      → read_word_ram (with_bytes map target range (stored_word target.offset v other)) target
        ≡ ok v
  unfolding read_word_ram
  read_word_ram-with_bytes other v h fits =
      let after = stored_word target.offset v other in
      let o = target.offset in
      let at_0 : after (o + 0) ≡ v % 2 ^ 8 = ground arith in
      let at_1 : after (o + 1) ≡ v / 2 ^ 8 % 2 ^ 8 = ground arith in
      let at_2 : after (o + 2) ≡ v / 2 ^ 16 % 2 ^ 8 = ground arith in
      let at_3 : after (o + 3) ≡ v / 2 ^ 24 % 2 ^ 8 = ground arith in
      rw
        (
          load_byte-with_bytes after 0 (omega arith),
          load_byte-with_bytes after 1 (omega arith),
          load_byte-with_bytes after 2 (omega arith),
          load_byte-with_bytes after 3 h,
        )
        (ap ok (
          join_word (after (o + 0)) (after (o + 1)) (after (o + 2)) (after (o + 3)) (omega arith)
            (omega arith) (omega arith) (omega arith)
          ∙ omega arith))

  pub read_half_ram-with_bytes :
      (other : ℕ → ℕ) (v : ℕ)
      → 1 < count
      → read_half_ram (with_bytes map target range (stored_half target.offset v other)) target
        ≡ ok (v % 2 ^ 16)
  unfolding read_half_ram
  read_half_ram-with_bytes other v h =
      let after = stored_half target.offset v other in
      let o = target.offset in
      let at_0 : after (o + 0) ≡ v % 2 ^ 8 = ground arith in
      let at_1 : after (o + 1) ≡ v / 2 ^ 8 % 2 ^ 8 = ground arith in
      rw (load_byte-with_bytes after 0 (omega arith), load_byte-with_bytes after 1 h)
        (ap ok
          (join_half (after (o + 0)) (after (o + 1)) (omega arith) (omega arith) ∙ omega arith))

  pub load_byte-stored :
      (other : ℕ → ℕ) (v : ℕ)
      → 0 < count
      → load_byte (with_bytes map target range (stored_byte target.offset v other)) target 0
        ≡ ok (v % 2 ^ 8)
  load_byte-stored other v h =
      let after = stored_byte target.offset v other in
      let at_0 : after (target.offset + 0) ≡ v % 2 ^ 8 = ground arith in
      rw (load_byte-with_bytes after 0 h) (ap ok at_0)

  -- A byte that the new bytes leave as it was, or that lies in another range.
  pub load_byte-frame :
      (other : ℕ → ℕ) (t : MemoryTarget) (i : ℕ)
      → (t.range ≢ target.range) ⊎ (other (t.offset + i) ≡ bytes (t.offset + i))
      → load_byte (with_bytes map target range other) t i ≡ load_byte map t i
  unfolding load_byte load_from with_bytes
  load_byte-frame other t i h = elim (ℕ_discrete t.range target.range) [
    | yes same ↦ ground (
      arith,
      get_elem?-set_self map target.range (record range { backing = ram other }) range backed.there,
      ap (get_elem? map) same,
      ap (get_elem? (with_bytes map target range other)) same,
      backed.there,
      backed.is_ram,
    )
    | no apart ↦
        rw
          (
            get_elem?-set_ne map target.range t.range (record range { backing = ram other })
                (λ e. apart (sym e)),
            load_byte,
          )
          refl
  ]
