-- ===== src/StateFile.antt =====
-- loadsave.c: the state and the RAM in a file. The object of a `State` is laid out as on a 64-bit
-- host: 4148 words, of which the one before the pointer `memory_map` is padding.
pub mod Bytes
pub mod Words
pub mod Ranges
pub mod RoundTrip
pub mod Valid
use emuriscv.Base.{
  ℕ, zero, suc, ◌+◌, ◌*◌, ◌-◌, ◌/◌, ◌%◌, ◌^◌, ◌==◌, ◌||◌, ltb, leb, Bool, true, false, not,
  if◌then◌else◌, List, [], ◌∷◌, ◌++◌, length, byte_at, Option, none, some, Outcome, ok, undefined,
  ◌>>=◌,
}
use emuriscv.Fdt.Text.{drop}
use emuriscv.Machine.{State, Status, running, breakpoint, exit_termination, status_code}
use emuriscv.Memory.Map.{MemoryMap, MemoryRange, unallocated, ram, device}

-- `sizeof(State)`.
abbrev pub state_size : ℕ
state_size = 16592

-- The words of the object. `rest` holds those of the padding and of the pointer.
unfoldable pub state_word : (ℕ → ℕ) → State → ℕ → ℕ
state_word rest s k =
    if k == 0
    then s.pc
    else if ltb k 33
    then s.x (k - 1)
    else if ltb k 4129
    then s.csr (k - 33)
    else if k == 4129
    then s.mhartid
    else if k == 4130
    then status_code s.status
    else if ltb k 4134
    then rest k
    else if k == 4134
    then s.instruction_counter
    else if k == 4135
    then s.pending_tval
    else if k == 4136
    then s.pending_exception
    else if k == 4137
    then if s.has_pending_exception then 1 else 0
    else if k == 4138
    then s.privilege
    else if k == 4139
    then s.load_reservation
    else s.pc_history (k - 4140)

-- The bytes of an object of words, on a little-endian host.
unfoldable pub byte_of : ℕ → ℕ → ℕ
byte_of w i = w / 2 ^ (8 * i) % 2 ^ 8

unfoldable pub bytes_of_words : (ℕ → ℕ) → ℕ → ℕ
unfolding byte_of
bytes_of_words words j = byte_of (words (j / 4)) (j % 4)

unfoldable pub word_of : (ℕ → ℕ) → ℕ → ℕ
word_of bytes k =
    bytes (4 * k)
    + 2 ^ 8 * bytes (4 * k + 1)
    + 2 ^ 16 * bytes (4 * k + 2)
    + 2 ^ 24 * bytes (4 * k + 3)

-- An enumerator's value. The model has no state for another value.
unfoldable pub status_of : ℕ → Outcome Status
status_of code =
    if code == 0
    then ok running
    else if code == 1
    then ok breakpoint
    else if code == 2
    then ok exit_termination
    else undefined

-- The fields that the object holds; those behind the pointers and the globals are kept.
unfoldable pub state_of_bytes : (ℕ → ℕ) → State → Outcome State
unfolding word_of status_of
state_of_bytes bytes s = status_of (word_of bytes 4130) >>= λ status'. ok (record s {
  pc = word_of bytes 0;
  x = λ i. word_of bytes (1 + i);
  csr = λ i. word_of bytes (33 + i);
  mhartid = word_of bytes 4129;
  status = status';
  instruction_counter = word_of bytes 4134;
  pending_tval = word_of bytes 4135;
  pending_exception = word_of bytes 4136;
  has_pending_exception = not (word_of bytes 4137 == 0);
  privilege = word_of bytes 4138;
  load_reservation = word_of bytes 4139;
  pc_history = λ i. word_of bytes (4140 + i);
})

-- `fwrite` of `n` bytes of an object, from the one at an index on.
unfoldable pub fwrite : ℕ → (ℕ → ℕ) → ℕ → List ℕ
fwrite zero bytes i = []
fwrite (suc n) bytes i = bytes i ∷ fwrite n bytes (i + 1)

-- `fread` of `n` bytes: what the object then holds, and the rest of the file. Where the file is too
-- short, the rest of the object stays.
unfoldable pub fread : ℕ → List ℕ → (ℕ → ℕ) → (ℕ → ℕ) × List ℕ
fread n file bytes = (
  λ j. if ltb j n then (if ltb j (length file) then byte_at file j else bytes j) else bytes j,
  drop n file,
)

unfoldable pub save_range : MemoryRange → Outcome (List ℕ)
unfolding fwrite byte_of
save_range range = elim range.backing [
  | unallocated ↦ undefined
  | ram bytes ↦ ok (
      fwrite 4 (byte_of range.address) 0
      ++ (fwrite 4 (byte_of range.size) 0 ++ fwrite range.size bytes 0))
  | device d ↦ ok []
]

unfoldable pub save_ranges : MemoryMap → Outcome (List ℕ)
unfolding save_range
save_ranges [] = ok []
save_ranges (range ∷ map) =
    save_range range >>= λ first. save_ranges map >>= λ rest. ok (first ++ rest)

-- The bytes of the file, which is taken to open.
unfoldable pub save : (ℕ → ℕ) → State → Outcome (List ℕ)
save rest s = save_ranges s.memory_map >>= λ ranges.
    ok (fwrite state_size (bytes_of_words (state_word rest s)) 0 ++ ranges)

-- The address and the size are read into a copy of the range; as many bytes as the size in the file
-- says go to the memory of the range. Past its end that is undefined.
unfoldable pub load_range : List ℕ → MemoryRange → Outcome (MemoryRange × List ℕ)
load_range file range = elim range.backing [
  | unallocated ↦ undefined
  | ram bytes ↦
      let (address, behind_address) = fread 4 file (byte_of range.address) in
      let (size_bytes, behind_size) = fread 4 behind_address (byte_of range.size) in
      let size = word_of size_bytes 0 in
      let (loaded, behind) = fread size behind_size bytes in
      if leb size range.size || leb (length behind_size) range.size
      then ok (record range { backing = ram loaded }, behind)
      else undefined
  | device d ↦ ok (range, file)
]

unfoldable pub load_ranges : List ℕ → MemoryMap → Outcome MemoryMap
unfolding load_range
load_ranges file [] = ok []
load_ranges file (range ∷ map) = load_range file range >>= λ (range', behind).
    load_ranges behind map >>= λ map'. ok (range' ∷ map')

-- The object and the ranges that are read. The memory map is that of the state before.
unfoldable pub load_object : (ℕ → ℕ) → List ℕ → State → Outcome State
load_object object behind s = state_of_bytes object s >>= λ s'.
    load_ranges behind s.memory_map >>= λ map. ok (record s' { memory_map = map })

-- No file is `none`: `fread` then gets a null pointer.
unfoldable pub load : (ℕ → ℕ) → Option (List ℕ) → State → Outcome State
unfolding load_object
load rest none s = undefined
load rest (some file) s =
    let read = fread state_size file (bytes_of_words (state_word rest s)) in
    load_object (read.0) (read.1) s
