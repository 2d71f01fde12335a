-- ===== src/StateFile/Ranges.antt =====
-- The ranges of a memory map in a file.
use emuriscv.Base.{
  ℕ, ◌<◌, ◌≡◌, refl, sym, ap, ◌∙◌, arith, IsWord, true, leb, List, [], ◌∷◌, ◌++◌, ok, ◌>>=◌, >>=-ok,
}
use mathlib.Core.List.{append_assoc}
use mathlib.Core.Path.{subst}
use emuriscv.Memory.Map.{MemoryMap, MemoryRange, Backing, unallocated, ram, device}
use emuriscv.StateFile.{byte_of, fwrite, fread, save_range, save_ranges, load_range, load_ranges}
use emuriscv.StateFile.Bytes.{fread-fwrite, fread_rest, word_of-one}

-- Two memories of one kind: RAM, or the same device.
abbrev pub SameKind : Backing → Backing → Type 0
SameKind (ram a) (ram b) = Unit
SameKind (device d) (device e) = d ≡ e
SameKind _ _ = ⊥

-- Two maps with the same ranges, whatever their RAM holds.
abbrev pub SameRanges : MemoryMap → MemoryMap → Type 0
SameRanges [] [] = Unit
SameRanges (r ∷ map) (q ∷ other) =
    (q.address ≡ r.address)
    × (q.size ≡ r.size)
    × IsWord r.address
    × IsWord r.size
    × SameKind r.backing q.backing
    × SameRanges map other
SameRanges _ _ = ⊥

abbrev pub SameBytes : ℕ → Backing → Backing → Type 0
SameBytes size (ram a) (ram b) = (i : ℕ) → i < size → b i ≡ a i
SameBytes size (device d) (device e) = d ≡ e
SameBytes size _ _ = ⊥

-- Two maps with the same ranges and the same bytes in the RAM.
abbrev pub SameMemory : MemoryMap → MemoryMap → Type 0
SameMemory [] [] = Unit
SameMemory (r ∷ map) (q ∷ other) =
    (q.address ≡ r.address)
    × (q.size ≡ r.size)
    × SameBytes r.size r.backing q.backing
    × SameMemory map other
SameMemory _ _ = ⊥

leb_self : (n : ℕ) → leb n n ≡ true
leb_self n = ground arith

-- A RAM range gets its bytes back, and the rest of the file is left.
ram_lem :
    (address size : ℕ) (a b : ℕ → ℕ) (behind : List ℕ)
    → IsWord address
    → IsWord size
    → (loaded : ℕ → ℕ) × (load_range
          ((fwrite 4 (byte_of address) 0 ++ (fwrite 4 (byte_of size) 0 ++ fwrite size a 0))
            ++ behind)
          (record { address = address; size = size; backing = ram b })
        ≡ ok (record { address = address; size = size; backing = ram loaded }, behind))
      × ((i : ℕ) → i < size → loaded i ≡ a i)
unfolding load_range
ram_lem address size a b behind wa ws = (
  (fread size (fwrite size a 0 ++ behind) b).0,
  ap (λ file. load_range file (record { address = address; size = size; backing = ram b }))
        (append_assoc (fwrite 4 (byte_of address) 0) (fwrite 4 (byte_of size) 0 ++ fwrite size a 0)
            behind
          ∙ ap (λ l. fwrite 4 (byte_of address) 0 ++ l)
              (append_assoc (fwrite 4 (byte_of size) 0) (fwrite size a 0) behind))
      ∙ rw
          (
            fread_rest 4 (byte_of address) (byte_of address)
                (fwrite 4 (byte_of size) 0 ++ (fwrite size a 0 ++ behind)),
            fread_rest 4 (byte_of size) (byte_of size) (fwrite size a 0 ++ behind),
            word_of-one size (byte_of size) (fwrite size a 0 ++ behind) ws,
            leb_self size,
            fread_rest size a b behind,
          )
          refl,
  λ i h. fread-fwrite size a b behind i h,
)

-- What a range that is loaded looks like beside the range that was saved.
record Loaded (r : MemoryRange) (file behind : List ℕ) (q : MemoryRange) : Type 0 where
  result : MemoryRange
  returned : load_range (file ++ behind) q ≡ ok (result, behind)
  same_address : result.address ≡ r.address
  same_size : result.size ≡ r.size
  same_bytes : SameBytes r.size r.backing result.backing

ok_inj : {a b : List ℕ} → ok a ≡ ok b → a ≡ b
ok_inj h = cc

backing_lem :
    (address size : ℕ) (a b : Backing) (file behind : List ℕ)
    → IsWord address
    → IsWord size
    → SameKind a b
    → save_range (record { address = address; size = size; backing = a }) ≡ ok file
    → Loaded
        (record { address = address; size = size; backing = a })
        file
        behind
        (record { address = address; size = size; backing = b })
unfolding save_range load_range
backing_lem address size (ram a) (ram b) file behind wa ws same saved =
    let (loaded, returned, bytes) = ram_lem address size a b behind wa ws in
    record {
      result = record { address = address; size = size; backing = ram loaded };
      returned =
          ap
            (λ f.
              load_range (f ++ behind) (record { address = address; size = size; backing = ram b }))
            (sym (ok_inj saved))
          ∙ returned;
      same_address = refl;
      same_size = refl;
      same_bytes = bytes;
    }
backing_lem address size (device d) (device e) file behind wa ws same saved = record {
  result = record { address = address; size = size; backing = device e };
  returned =
      ap (λ f. ok (record { address = address; size = size; backing = device e }, f ++ behind))
        (sym (ok_inj saved));
  same_address = refl;
  same_size = refl;
  same_bytes = same;
}
backing_lem address size unallocated b file behind wa ws same saved = absurd same
backing_lem address size (ram a) unallocated file behind wa ws same saved = absurd same
backing_lem address size (ram a) (device e) file behind wa ws same saved = absurd same
backing_lem address size (device d) unallocated file behind wa ws same saved = absurd same
backing_lem address size (device d) (ram b) file behind wa ws same saved = absurd same

range_lem :
    (r q : MemoryRange) (file behind : List ℕ)
    → q.address ≡ r.address
    → q.size ≡ r.size
    → IsWord r.address
    → IsWord r.size
    → SameKind r.backing q.backing
    → save_range r ≡ ok file
    → Loaded r file behind q
range_lem r q file behind ea es wa ws same saved =
    subst (λ p. Loaded r file behind p)
      (λ i. record { address = sym ea i; size = sym es i; backing = q.backing })
      (backing_lem r.address r.size r.backing q.backing file behind wa ws same saved)

pub load_ranges-save_ranges :
    (map other : MemoryMap) (file : List ℕ)
    → SameRanges map other
    → save_ranges map ≡ ok file
    → (loaded : MemoryMap) × (load_ranges file other ≡ ok loaded) × SameMemory map loaded
unfolding save_ranges load_ranges
load_ranges-save_ranges [] [] file same saved = ([], refl, tt)
load_ranges-save_ranges [] (q ∷ other) file same saved = absurd same
load_ranges-save_ranges (r ∷ map) [] file same saved = absurd same
load_ranges-save_ranges (r ∷ map) (q ∷ other) file (ea, es, wa, ws, kind, more) saved =
    let (first, e1, s1) =
      >>=-ok (λ first. save_ranges map >>= λ rest. ok (first ++ rest)) (save_range r) saved in
    let (rest, e2, s2) = >>=-ok (λ rest. ok (first ++ rest)) (save_ranges map) e1 in
    let head = range_lem r q first rest ea es wa ws kind s1 in
    let (loaded, e3, memory) = load_ranges-save_ranges map other rest more s2 in
    (
      head.result ∷ loaded,
      ap (λ f. load_ranges f (q ∷ other)) (sym (ok_inj e2)) ∙ rw (head.returned, e3) refl,
      (head.same_address, head.same_size, head.same_bytes, memory),
    )
