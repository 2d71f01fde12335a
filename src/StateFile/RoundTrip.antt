-- ===== src/StateFile/RoundTrip.antt =====
-- A saved state is loaded again.
use emuriscv.Base.{
  ℕ, ◌+◌, ◌<◌, ◌≡◌, refl, sym, ap, ◌∙◌, arith, Bool, true, false, not, ◌==◌, if◌then◌else◌, List,
  ◌++◌, some, ok, >>=-ok,
}
use emuriscv.Machine.{State}
use emuriscv.Memory.Map.{MemoryMap}
use emuriscv.StateFile.{
  state_size, state_word, bytes_of_words, word_of, state_of_bytes, fwrite, fread, save_ranges, save,
  load_ranges, load_object, load,
}
use emuriscv.StateFile.Bytes.{fread_rest, word_of-fread}
use emuriscv.StateFile.Words.{
  IsSaveable, status_of-status_code, state_word-IsWord, register_word, csr_word, history_word,
}
use emuriscv.StateFile.Ranges.{SameRanges, SameMemory, load_ranges-save_ranges}

-- The state `r` holds what `s` held; the devices and the console are those of `t`.
pub record Restored (s t r : State) : Type 0 where
  pub pc_restored : r.pc ≡ s.pc
  pub registers : (i : ℕ) → i < 32 → r.x i ≡ s.x i
  pub csrs : (i : ℕ) → i < 4096 → r.csr i ≡ s.csr i
  pub hart : r.mhartid ≡ s.mhartid
  pub status_restored : r.status ≡ s.status
  pub counter : r.instruction_counter ≡ s.instruction_counter
  pub pending_value : r.pending_tval ≡ s.pending_tval
  pub pending_cause : r.pending_exception ≡ s.pending_exception
  pub pending : r.has_pending_exception ≡ s.has_pending_exception
  pub level : r.privilege ≡ s.privilege
  pub reservation : r.load_reservation ≡ s.load_reservation
  pub history : (i : ℕ) → i < 8 → r.pc_history i ≡ s.pc_history i
  pub memory : SameMemory s.memory_map r.memory_map
  pub devices : r.vm ≡ t.vm
  pub console_kept : r.console ≡ t.console

-- The object that the words of a state were written from.
module _ (rest : ℕ → ℕ) (s : State) (old : ℕ → ℕ) (behind : List ℕ) (h : IsSaveable rest s) where
  abbrev object : ℕ → ℕ
  object =
      (fread state_size (fwrite state_size (bytes_of_words (state_word rest s)) 0 ++ behind) old).0

  word_lem : (k : ℕ) → k < 4148 → word_of object k ≡ state_word rest s k
  word_lem k inside =
      word_of-fread state_size (state_word rest s) old behind k (omega arith)
        (state_word-IsWord rest s k h)

  state_of_bytes_lem :
      (t : State) (map : MemoryMap)
      → SameMemory s.memory_map map
      → (r : State) × (state_of_bytes object t ≡ ok r)
        × Restored s t (record r { memory_map = map })
  unfolding state_of_bytes state_word
  state_of_bytes_lem t map same = (
    record t {
      pc = word_of object 0;
      x = λ i. word_of object (1 + i);
      csr = λ i. word_of object (33 + i);
      mhartid = word_of object 4129;
      status = s.status;
      instruction_counter = word_of object 4134;
      pending_tval = word_of object 4135;
      pending_exception = word_of object 4136;
      has_pending_exception = not (word_of object 4137 == 0);
      privilege = word_of object 4138;
      load_reservation = word_of object 4139;
      pc_history = λ i. word_of object (4140 + i);
    },
    rw (word_lem 4130 (omega arith), status_of-status_code s.status) refl,
    record {
      pc_restored = word_lem 0 (omega arith);
      registers = λ i fits. word_lem (1 + i) (omega arith) ∙ register_word rest s i fits;
      csrs = λ i fits. word_lem (33 + i) (omega arith) ∙ csr_word rest s i fits;
      hart = word_lem 4129 (omega arith);
      status_restored = refl;
      counter = word_lem 4134 (omega arith);
      pending_value = word_lem 4135 (omega arith);
      pending_cause = word_lem 4136 (omega arith);
      pending = ap (λ w. not (w == 0)) (word_lem 4137 (omega arith)) ∙ flag s.has_pending_exception;
      level = word_lem 4138 (omega arith);
      reservation = word_lem 4139 (omega arith);
      history = λ i fits. word_lem (4140 + i) (omega arith) ∙ history_word rest s i fits;
      memory = same;
      devices = refl;
      console_kept = refl;
    },
  )
    where
      flag : (b : Bool) → not ((if b then 1 else 0) == 0) ≡ b
      flag true = refl
      flag false = refl

ok_inj : {a b : List ℕ} → ok a ≡ ok b → a ≡ b
ok_inj h = cc

load_object_lem :
    (read : ℕ → ℕ) (behind : List ℕ) (t r : State) (map : MemoryMap)
    → state_of_bytes read t ≡ ok r
    → load_ranges behind t.memory_map ≡ ok map
    → load_object read behind t ≡ ok (record r { memory_map = map })
unfolding load_object
load_object_lem read behind t r map e f = rw (e, f) refl

-- A well-formed state that is saved, and then loaded into any machine with the same memory ranges,
-- comes back: `load` succeeds, every register, CSR, counter and pending exception and every byte of the
-- RAM is as it was, whatever the machine held before; what the file does not hold, the timer, the host
-- interface and the console, stays that of the machine.
pub load-save :
    (rest rest' : ℕ → ℕ) (s t : State) (file : List ℕ)
    → IsSaveable rest s
    → SameRanges s.memory_map t.memory_map
    → save rest s ≡ ok file
    → (r : State) × (load rest' (some file) t ≡ ok r) × Restored s t r
unfolding save load
load-save rest rest' s t file h same saved =
    let (ranges, e, s1) =
      >>=-ok (λ ranges. ok (fwrite state_size (bytes_of_words (state_word rest s)) 0 ++ ranges))
        (save_ranges s.memory_map) saved in
    let (map, e2, memory) = load_ranges-save_ranges s.memory_map t.memory_map ranges same s1 in
    let (r, e3, restored) =
      state_of_bytes_lem rest s (bytes_of_words (state_word rest' t)) ranges h t map memory in
    let words = bytes_of_words (state_word rest s) in
    let old = bytes_of_words (state_word rest' t) in
    let object' = (fread state_size (fwrite state_size words 0 ++ ranges) old).0 in
    (
      record r { memory_map = map },
      ap (λ f. load rest' (some f) t) (sym (ok_inj e))
          ∙ ap (λ behind. load_object object' behind t) (fread_rest state_size words old ranges)
          ∙ load_object_lem object' ranges t r map e3 e2,
      restored,
    )
