-- ===== src/FbServer/Cache/Lookup.antt =====
-- What `find_shm` of src/fbserver.c returns.
use chroagh.Base.{
  ℕ, zero, suc, ◌≡◌, refl, ap, ◌∙◌, ◌⊎◌, inl, inr, ◌==◌, ==_iff, Option-cases, Bool-cases,
  if◌then◌else◌, Bool, false, Option, none, some, arith, Outcome, done, fault,
}
use chroagh.FbServer.Cache.{
  Slot, slot0, slot1, Cache, System, entry, next, close_mmap, fetch, try_loop, choose_entry,
  find_shm,
}
use chroagh.FbServer.Cache.Balance.{
  IsBalanced, live, close_mmap-map, close_mmap-IsBalanced, Fetched, stopped, fetched, fetch-Fetched,
}

pub data Finds (system : System) (paddr sig : ℕ) (r : Outcome (Option Slot × Cache)) : Type 0 where
  found :
      (i : Slot) (m : ℕ) (s : Cache)
      → r ≡ done (some i, s)
      → IsBalanced s
      → (entry i s).paddr ≡ paddr
      → (entry i s).map ≡ some m
      → system.first_word s.calls m ≡ some sig
      → Finds system paddr sig r
  missing : (s : Cache) → r ≡ done (none, s) → IsBalanced s → Finds system paddr sig r
  unreadable :
      (i : Slot) (m : ℕ) (s : Cache)
      → r ≡ fault
      → (entry i s).map ≡ some m
      → system.first_word s.calls m ≡ none
      → Finds system paddr sig r

module _ (system : System) (paddr sig length : ℕ) (i : Slot) where
  abbrev goes_on : ℕ → Bool × Cache → Outcome (Option Slot × Cache)
  goes_on tries (on, s) = if on then try_loop tries system paddr sig length i s else done (none, s)

  abbrev refetch : ℕ → Cache → Outcome (Option Slot × Cache)
  refetch tries s = goes_on tries (fetch system paddr sig length i s)

  unmapped_run :
      (tries : ℕ) (s : Cache)
      → (entry i s).map ≡ none
      → try_loop (suc tries) system paddr sig length i s ≡ refetch tries s
  unfolding try_loop
  unmapped_run tries s e = rw (e, try_loop) refl

  stale_run :
      (tries : ℕ) (s : Cache) (m word : ℕ)
      → (entry i s).map ≡ some m
      → system.first_word s.calls m ≡ some word
      → (word == sig) ≡ false
      → try_loop (suc tries) system paddr sig length i s ≡ refetch tries (close_mmap i s)
  unfolding try_loop
  stale_run tries s m word e f g = rw (e, f, g, try_loop) refl

  abbrev IsFor : Cache → Type 0
  IsFor s = ((entry i s).map ≡ none) ⊎ ((entry i s).paddr ≡ paddr)

  mapped_for : (s : Cache) (m : ℕ) → (entry i s).map ≡ some m → IsFor s → (entry i s).paddr ≡ paddr
  mapped_for s m e (inl gone) = absurd (omega (arith, ap live e, ap live gone))
  mapped_for s m e (inr p) = p

  goes_on-Finds :
      (tries : ℕ) (r : Bool × Cache)
      → ((s : Cache)
          → IsBalanced s
          → IsFor s
          → Finds system paddr sig (try_loop tries system paddr sig length i s))
      → Fetched paddr i r
      → Finds system paddr sig (goes_on tries r)
  goes_on-Finds tries r rest (stopped s' e h) = missing s' (ap (goes_on tries) e) h
  goes_on-Finds tries r rest (fetched s' e h p) = rw e (rest s' h (inr p))

  try_loop-Finds :
      (tries : ℕ) (s : Cache)
      → IsBalanced s
      → IsFor s
      → Finds system paddr sig (try_loop tries system paddr sig length i s)
  unfolding try_loop
  try_loop-Finds zero s h for' = missing s refl h
  try_loop-Finds (suc tries) s h for' =
      let rest = λ (t : Cache) (hb : IsBalanced t) (hf : IsFor t). try_loop-Finds tries t hb hf in
      elim (Option-cases (entry i s).map) [
        | inl e ↦ rw (unmapped_run tries s e) (
            goes_on-Finds tries (fetch system paddr sig length i s) rest
              (fetch-Fetched system paddr sig length i s h e))
        | inr (m, e) ↦ elim (Option-cases (system.first_word s.calls m)) [
          | inl f ↦ unreadable i m s (rw (e, f, try_loop) refl) e f
          | inr (word, f) ↦ elim (Bool-cases (word == sig)) [
            | inl g ↦
                found i m s (rw (e, f, g, try_loop) refl) h (mapped_for s m e for') e
                  (f ∙ ap some ((==_iff word sig).0 g))
            | inr g ↦
                let s1 = close_mmap i s in
                rw (stale_run tries s m word e f g) (
                  goes_on-Finds tries (fetch system paddr sig length i s1) rest (
                    fetch-Fetched system paddr sig length i s1 (close_mmap-IsBalanced i s h)
                      (close_mmap-map i s)))
          ]
        ]
      ]

turned-IsBalanced :
    (s : Cache) → IsBalanced s → IsBalanced (record s { next_entry = next s.next_entry })
turned-IsBalanced s h = record { count = h.count; fd0 = h.fd0; fd1 = h.fd1 }

-- Whatever the system answers, `find_shm` ends with as many descriptors open as entries are mapped,
-- if so many were open before: it returns an entry that is mapped for the address and starts with
-- the signature, or none; or a mapping cannot be read, which is undefined.
pub find_shm-Finds :
    (system : System) (paddr sig length : ℕ) (s : Cache)
    → IsBalanced s
    → Finds system paddr sig (find_shm system paddr sig length s)
unfolding find_shm choose_entry
find_shm-Finds system paddr sig length s h = elim (Bool-cases (s.entry0.paddr == paddr)) [
  | inl a ↦
      rw (a, choose_entry)
        (try_loop-Finds system paddr sig length slot0 2 s h
          (inr ((==_iff s.entry0.paddr paddr).0 a)))
  | inr a ↦ elim (Bool-cases (s.entry1.paddr == paddr)) [
    | inl b ↦
        rw (a, b, choose_entry)
          (try_loop-Finds system paddr sig length slot1 2 s h
            (inr ((==_iff s.entry1.paddr paddr).0 b)))
    | inr b ↦
        let s1 : Cache = record s { next_entry = next s.next_entry } in
        rw (a, b, choose_entry)
          (try_loop-Finds system paddr sig length s.next_entry 2 (close_mmap s.next_entry s1)
            (close_mmap-IsBalanced s.next_entry s1 (turned-IsBalanced s h))
            (inl (close_mmap-map s.next_entry s1)))
  ]
]
