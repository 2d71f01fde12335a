-- ===== src/StateFile/Valid.antt =====
-- What is loaded is well-formed, where the file says that x0 is zero and the privilege fits.
use emuriscv.Base.{
  ℕ, zero, suc, ◌+◌, ◌*◌, ◌≤◌, ◌≡◌, ◌∙◌, arith, Bool, true, false, if◌then◌else◌, List, [], ◌∷◌,
  ◌++◌, length, byte_at, some, ok, undefined, IsWord, leb, ◌||◌, Holds, Holds-ok, Holds-undefined,
  Holds-after, Holds-bind,
}
use emuriscv.Fdt.Text.{drop}
use emuriscv.Machine.{State}
use emuriscv.Machine.Valid.{IsValid}
use emuriscv.Memory.Valid.Translate.{memory_map-IsValid}
use emuriscv.Memory.Map.{MemoryMap, MemoryRange, Backing, unallocated, ram, device}
use emuriscv.Memory.Map.Bytes.{IsByte, IsByteMap, HasBytes}
use emuriscv.StateFile.{
  state_size, state_word, byte_of, bytes_of_words, word_of, state_of_bytes, status_of, fwrite,
  fread, load_range, load_ranges, load_object, load, save, save_ranges, save_range,
}
use emuriscv.StateFile.Bytes.{word_of-fread}

-- The bytes of a file.
abbrev pub AreBytes : List ℕ → Type 0
AreBytes [] = Unit
AreBytes (b ∷ bytes) = IsByte b × AreBytes bytes

byte_at-IsByte : (file : List ℕ) (j : ℕ) → AreBytes file → IsByte (byte_at file j)
byte_at-IsByte [] j h = omega arith
byte_at-IsByte (b ∷ file) zero (here, rest) = here
byte_at-IsByte (b ∷ file) (suc j) (here, rest) = byte_at-IsByte file j rest

drop-AreBytes : (n : ℕ) (file : List ℕ) → AreBytes file → AreBytes (drop n file)
drop-AreBytes zero file h = h
drop-AreBytes (suc n) [] h = tt
drop-AreBytes (suc n) (b ∷ file) (here, rest) = drop-AreBytes n file rest

append-AreBytes : (a b : List ℕ) → AreBytes a → AreBytes b → AreBytes (a ++ b)
append-AreBytes [] b h k = k
append-AreBytes (c ∷ a) b (here, rest) k = (here, append-AreBytes a b rest k)

fwrite-AreBytes :
    (n : ℕ) (bytes : ℕ → ℕ) (i : ℕ) → ((j : ℕ) → IsByte (bytes j)) → AreBytes (fwrite n bytes i)
unfolding fwrite
fwrite-AreBytes zero bytes i h = tt
fwrite-AreBytes (suc n) bytes i h = (h i, fwrite-AreBytes n bytes (i + 1) h)

byte_of-IsByte : (w i : ℕ) → IsByte (byte_of w i)
unfolding byte_of
byte_of-IsByte w i = omega arith

bytes_of_words-IsByte : (words : ℕ → ℕ) (j : ℕ) → IsByte (bytes_of_words words j)
unfolding bytes_of_words
bytes_of_words-IsByte words j = byte_of-IsByte _ _

fread-IsByte :
    (n : ℕ) (file : List ℕ) (old : ℕ → ℕ) (j : ℕ)
    → AreBytes file
    → ((i : ℕ) → IsByte (old i))
    → IsByte ((fread n file old).0 j)
unfolding fread
fread-IsByte n file old j h k = ground (arith, byte_at-IsByte file j h, k j)

fread-AreBytes :
    (n : ℕ) (file : List ℕ) (old : ℕ → ℕ) → AreBytes file → AreBytes ((fread n file old).1)
unfolding fread
fread-AreBytes n file old h = drop-AreBytes n file h

word_of-IsWord : (bytes : ℕ → ℕ) (k : ℕ) → ((j : ℕ) → IsByte (bytes j)) → IsWord (word_of bytes k)
unfolding word_of
word_of-IsWord bytes k h = omega (arith, h (4 * k), h (4 * k + 1), h (4 * k + 2), h (4 * k + 3))

-- A range that was read, with the rest of the file.
abbrev RangeIsRead : MemoryRange × List ℕ → Type 0
RangeIsRead r = HasBytes ((r.0).backing) × AreBytes (r.1)

test_range :
    (b : Bool) (range : MemoryRange) (file : List ℕ) (loaded : ℕ → ℕ)
    → AreBytes file
    → ((i : ℕ) → IsByte (loaded i))
    → Holds RangeIsRead (if b then ok (record range { backing = ram loaded }, file) else undefined)
test_range true range file loaded h k = Holds-ok _ (k, h)
test_range false range file loaded h k = Holds-undefined

load_range-HasBytes :
    (backing : Backing) (file : List ℕ) (address size : ℕ)
    → AreBytes file
    → HasBytes backing
    → Holds RangeIsRead
        (load_range file (record { address = address; size = size; backing = backing }))
unfolding load_range
load_range-HasBytes unallocated file address size h k = Holds-undefined
load_range-HasBytes (ram bytes) file address size h k =
    let behind_address = (fread 4 file (byte_of address)).1 in
    let h1 = fread-AreBytes 4 file (byte_of address) h in
    let behind_size = (fread 4 behind_address (byte_of size)).1 in
    let h2 = fread-AreBytes 4 behind_address (byte_of size) h1 in
    let n = word_of ((fread 4 behind_address (byte_of size)).0) 0 in
    let loaded = (fread n behind_size bytes).0 in
    test_range (leb n size || leb (length behind_size) size)
      (record { address = address; size = size; backing = ram bytes })
      ((fread n behind_size bytes).1) loaded (fread-AreBytes n behind_size bytes h2)
      (λ i. fread-IsByte n behind_size bytes i h2 k)
load_range-HasBytes (device d) file address size h k = Holds-ok _ (tt, h)

load_ranges-IsByteMap :
    (map : MemoryMap) (file : List ℕ)
    → AreBytes file
    → IsByteMap map
    → Holds IsByteMap (load_ranges file map)
unfolding load_ranges
load_ranges-IsByteMap [] file h k = Holds-ok _ tt
load_ranges-IsByteMap (range ∷ map) file h (here, rest) =
    Holds-bind _ _ (load_range-HasBytes range.backing file range.address range.size h here) (λ r v.
      Holds-bind _ _ (load_ranges-IsByteMap map (r.1) (v.1) rest) (λ map' w. Holds-ok _ (v.0, w)))

-- The parts of the object in a file that a well-formed state restricts.
pub record HasValidHead (object : ℕ → ℕ) : Type 0 where
  pub zero_word : word_of object 1 ≡ 0
  pub level_word : word_of object 4138 ≤ 3

state_of_bytes-IsValid :
    (object : ℕ → ℕ) (t : State)
    → ((j : ℕ) → IsByte (object j))
    → HasValidHead object
    → IsValid t
    → Holds IsValid (state_of_bytes object t)
unfolding state_of_bytes
state_of_bytes-IsValid object t bytes head h =
    Holds-after (status_of (word_of object 4130)) _ (λ status'. Holds-ok _ (record {
      zero_register = head.zero_word;
      registers = λ i. word_of-IsWord object (1 + i) bytes;
      csrs = λ i. word_of-IsWord object (33 + i) bytes;
      history = λ i. word_of-IsWord object (4140 + i) bytes;
      uart = h.uart;
      program_counter = word_of-IsWord object 0 bytes;
      counter = word_of-IsWord object 4134 bytes;
      pending_cause = word_of-IsWord object 4136 bytes;
      pending_value = word_of-IsWord object 4135 bytes;
      reservation = word_of-IsWord object 4139 bytes;
      privilege_fits = head.level_word;
      bytes = h.bytes;
      tohost = h.tohost;
      fromhost = h.fromhost;
      compare_time = h.compare_time;
      cycles = h.cycles;
    }))

pub record IsStateFile (file : List ℕ) : Type 0 where
  pub are_bytes : AreBytes file
  pub head : (old : ℕ → ℕ) → HasValidHead ((fread state_size file old).0)

pub load-IsValid :
    (rest : ℕ → ℕ) (file : List ℕ) (t : State)
    → IsStateFile file
    → IsValid t
    → Holds IsValid (load rest (some file) t)
unfolding load load_object
load-IsValid rest file t f h =
    let old = bytes_of_words (state_word rest t) in
    Holds-bind _ _
      (state_of_bytes-IsValid _ t
        (λ j. fread-IsByte state_size file old j f.are_bytes (bytes_of_words-IsByte _)) (f.head old)
        h)
      (λ s v.
        Holds-bind _ _
          (load_ranges-IsByteMap t.memory_map _ (fread-AreBytes state_size file old f.are_bytes)
            h.bytes)
          (λ map k. Holds-ok _ (memory_map-IsValid s map v k)))

save_range-AreBytes :
    (backing : Backing) (address size : ℕ)
    → HasBytes backing
    → Holds AreBytes (save_range (record { address = address; size = size; backing = backing }))
unfolding save_range
save_range-AreBytes unallocated address size h = Holds-undefined
save_range-AreBytes (ram bytes) address size h = Holds-ok _ (
    append-AreBytes (fwrite 4 (byte_of address) 0)
      (fwrite 4 (byte_of size) 0 ++ fwrite size bytes 0)
      (fwrite-AreBytes 4 (byte_of address) 0 (byte_of-IsByte address))
      (append-AreBytes (fwrite 4 (byte_of size) 0) (fwrite size bytes 0)
        (fwrite-AreBytes 4 (byte_of size) 0 (byte_of-IsByte size))
        (fwrite-AreBytes size bytes 0 h)))
save_range-AreBytes (device d) address size h = Holds-ok _ tt

save_ranges-AreBytes : (map : MemoryMap) → IsByteMap map → Holds AreBytes (save_ranges map)
unfolding save_ranges
save_ranges-AreBytes [] h = Holds-ok _ tt
save_ranges-AreBytes (range ∷ map) (here, rest) =
    Holds-bind _ _ (save_range-AreBytes range.backing range.address range.size here) (λ first v.
      Holds-bind _ _ (save_ranges-AreBytes map rest)
        (λ more w. Holds-ok _ (append-AreBytes first more v w)))

saved_head :
    (rest : ℕ → ℕ) (s : State) (behind : List ℕ) (old : ℕ → ℕ)
    → IsValid s
    → HasValidHead (
        (fread state_size
          (fwrite state_size (bytes_of_words (state_word rest s)) 0 ++ behind)
          old).0)
unfolding state_word
saved_head rest s behind old h =
    let word = word_of-fread state_size (state_word rest s) old behind in
    record {
      zero_word = word 1 (omega arith) (h.registers 0) ∙ h.zero_register;
      level_word =
          omega
            (arith, word 4138 (omega arith) (omega (arith, h.privilege_fits)), h.privilege_fits);
    }

-- A well-formed state is saved to a file that gives well-formed states.
pub save-IsStateFile : (rest : ℕ → ℕ) (s : State) → IsValid s → Holds IsStateFile (save rest s)
unfolding save
save-IsStateFile rest s h = Holds-bind _ _ (save_ranges-AreBytes s.memory_map h.bytes) (λ ranges k.
    Holds-ok _ (record {
      are_bytes =
          append-AreBytes (fwrite state_size (bytes_of_words (state_word rest s)) 0) ranges
            (fwrite-AreBytes state_size (bytes_of_words (state_word rest s)) 0
              (bytes_of_words-IsByte (state_word rest s)))
            k;
      head = λ old. saved_head rest s ranges old h;
    }))
