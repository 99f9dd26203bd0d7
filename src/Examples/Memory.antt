-- ===== src/Examples/Memory.antt =====
-- The cache of shared memory in src/fbserver.c at a concrete input.
use chroagh.Base.{refl, inl, none, some, [], ◌∷◌, true}
use chroagh.FbServer.Cache.{CacheEntry, slot0, Cache, System, find_shm}
use chroagh.FbServer.Cache.Balance.{IsBalanced}
use chroagh.FbServer.Cache.Lookup.{Finds, find_shm-Finds}

abbrev empty_entry : CacheEntry
empty_entry = record { paddr = 0; map = none; fd = none; length = 0 }

-- As the program starts.
abbrev start : Cache
start = record { entry0 = empty_entry; entry1 = empty_entry; next_entry = slot0; calls = [] }

start-IsBalanced : IsBalanced start
start-IsBalanced = record { count = refl; fd0 = inl refl; fd1 = inl refl }

-- The helper answers "7:/a", and the mapping starts with 42.
abbrev system : System
system = record {
  reply = λ calls paddr sig. b'7' ∷ b':' ∷ b'/' ∷ b'a' ∷ [];
  is_pid = λ text. true;
  open_file = λ calls file. some 8;
  mmap = λ calls length fd. some 4096;
  first_word = λ calls m. some 42;
}

find_shm-Finds_example : Finds system 4660 42 (find_shm system 4660 42 100 start)
find_shm-Finds_example = find_shm-Finds system 4660 42 100 start start-IsBalanced
