-- ===== src/FbServer/Cache.antt =====
-- The cache of shared memory in src/fbserver.c: `close_mmap` and `find_shm`. The helper program, the
-- files and the memory are an argument.
pub mod Balance
pub mod Lookup
use chroagh.Base.{
  ℕ, zero, suc, ◌==◌, if◌then◌else◌, Bool, true, false, Option, none, some, List, [], ◌∷◌, ◌%◌, ◌^◌,
  take, Outcome, M, done, fault,
}
use chroagh.WebSocket.Message.{c_string}

-- `map` is `none` for NULL, `fd` for -1.
pub record CacheEntry : Type 0 where
  pub paddr : ℕ
  pub map : Option ℕ
  pub fd : Option ℕ
  pub length : ℕ

-- `&cache[0]` and `&cache[1]`.
pub data Slot : Type 0 where
  slot0 : Slot
  slot1 : Slot

-- What was called, with the result where one came back.
pub data Call : Type 0 where
  helper : ℕ → ℕ → Call
  opened : List ℕ → ℕ → Call
  mapped : ℕ → ℕ → ℕ → Call
  unmapped : ℕ → ℕ → Call
  closed : Option ℕ → Call

pub record Cache : Type 0 where
  pub entry0 : CacheEntry
  pub entry1 : CacheEntry
  pub next_entry : Slot
  pub calls : List Call

-- What the system answers after the calls so far. `reply` is what `popen2` reads from the helper for
-- an address and a signature, nothing after an error; `is_pid` is whether `strtol` takes the whole
-- text; `first_word` is the first word of a mapping, `none` if it cannot be read.
pub record System : Type 0 where
  pub reply : List Call → ℕ → ℕ → List ℕ
  pub is_pid : List ℕ → Bool
  pub open_file : List Call → List ℕ → Option ℕ
  pub mmap : List Call → ℕ → ℕ → Option ℕ
  pub first_word : List Call → ℕ → Option ℕ

abbrev pub entry : Slot → Cache → CacheEntry
entry slot0 s = s.entry0
entry slot1 s = s.entry1

abbrev pub store : Slot → CacheEntry → Cache → Cache
store slot0 e s = record s { entry0 = e }
store slot1 e s = record s { entry1 = e }

abbrev pub note : Call → Cache → Cache
note c s = record s { calls = c ∷ s.calls }

-- `(next_entry + 1) % 2`
abbrev pub next : Slot → Slot
next slot0 = slot1
next slot1 = slot0

unfoldable pub close_mmap : Slot → Cache → Cache
close_mmap i s = elim (entry i s).map [
  | none ↦ s
  | some m ↦
      store i (record (entry i s) { map = none })
        (note (closed (entry i s).fd) (note (unmapped m (entry i s).length) s))
]

-- The text before the first colon and after it.
abbrev pub split_colon : List ℕ → Option (List ℕ × List ℕ)
split_colon [] = none
split_colon (c ∷ cs) =
    if c == b':'
    then some ([], cs)
    else elim (split_colon cs) [ none ↦ none | some (a, b) ↦ some (c ∷ a, b) ]

-- The file of the reply, which stands in `buffer[256]`: "PID:file".
abbrev pub file_of : System → List ℕ → Option (List ℕ)
file_of system [] = none
file_of system (c ∷ cs) = elim (split_colon (c_string (take 255 (c ∷ cs)))) [
  | none ↦ none
  | some (pid, file) ↦ if system.is_pid pid then some file else none
]

-- `open` and `mmap` of the file; the Boolean tells whether the function goes on.
unfoldable pub map_file : System → ℕ → ℕ → Slot → List ℕ → Cache → Bool × Cache
map_file system paddr length i file s =
    let e : CacheEntry = record (entry i s) { paddr = paddr } in
    elim (system.open_file s.calls file) [
      | none ↦ (false, store i (record e { fd = none }) s)
      | some fd ↦
          let s1 = note (opened file fd) s in
          elim (system.mmap s1.calls length fd) [
            | none ↦ (
              false,
              store i (record e { fd = some fd; length = length; map = none })
                  (note (closed (some fd)) s1),
            )
            | some m ↦ (
              true,
              store i (record e { fd = some fd; length = length; map = some m })
                  (note (mapped m length fd) s1),
            )
          ]
    ]

-- One run of the helper.
unfoldable pub fetch : System → ℕ → ℕ → ℕ → Slot → Cache → Bool × Cache
fetch system paddr sig length i s =
    let s1 = note (helper (paddr % 2 ^ 32) sig) s in
    elim (file_of system (system.reply s.calls (paddr % 2 ^ 32) sig)) [
      | none ↦ (false, s1)
      | some file ↦ map_file system paddr length i file s1
    ]

-- The loop, with `tries` rounds to go.
unfoldable pub try_loop : ℕ → System → ℕ → ℕ → ℕ → Slot → M Cache (Option Slot)
try_loop zero system paddr sig length i s = done (none, s)
try_loop (suc tries) system paddr sig length i s =
    let again = try_loop tries system paddr sig length i in
    let refetch = λ (s1 : Cache).
      let (on, s2) = fetch system paddr sig length i s1 in
      if on then again s2 else done (none, s2) in
    elim (entry i s).map [
      | none ↦ refetch s
      | some m ↦ elim (system.first_word s.calls m) [
        | none ↦ fault
        | some word ↦ if word == sig then done (some i, s) else refetch (close_mmap i s)
      ]
    ]

-- The entry for an address: the cached one, or the next in turn, emptied.
unfoldable pub choose_entry : ℕ → Cache → Slot × Cache
choose_entry paddr s =
    if s.entry0.paddr == paddr
    then (slot0, s)
    else if s.entry1.paddr == paddr
    then (slot1, s)
    else (s.next_entry, close_mmap s.next_entry (record s { next_entry = next s.next_entry }))

unfoldable pub find_shm : System → ℕ → ℕ → ℕ → M Cache (Option Slot)
find_shm system paddr sig length s =
    let (i, s1) = choose_entry paddr s in try_loop 2 system paddr sig length i s1
