-- ===== src/FbServer/Cache/Balance.antt =====
-- Each open descriptor belongs to an entry of the cache.
use chroagh.Base.{
  ℕ, ◌+◌, ◌%◌, ◌^◌, ◌≡◌, refl, ap, ◌∙◌, ◌⊎◌, inl, inr, Option-cases, Bool, true, false, Option,
  none, some, List, [], ◌∷◌, arith,
}
use chroagh.FbServer.Cache.{
  CacheEntry, Slot, slot0, slot1, Call, helper, opened, mapped, unmapped, closed, Cache, System,
  entry, store, note, close_mmap, file_of, map_file, fetch,
}

abbrev pub opens : List Call → ℕ
opens [] = 0
opens (opened file fd ∷ cs) = 1 + opens cs
opens (helper a b ∷ cs) = opens cs
opens (mapped m n fd ∷ cs) = opens cs
opens (unmapped m n ∷ cs) = opens cs
opens (closed fd ∷ cs) = opens cs

-- Closing -1 closes nothing.
abbrev pub closes : List Call → ℕ
closes [] = 0
closes (closed (some fd) ∷ cs) = 1 + closes cs
closes (closed none ∷ cs) = closes cs
closes (opened file fd ∷ cs) = closes cs
closes (helper a b ∷ cs) = closes cs
closes (mapped m n fd ∷ cs) = closes cs
closes (unmapped m n ∷ cs) = closes cs

abbrev pub live : Option ℕ → ℕ
live none = 0
live (some m) = 1

-- What a mapped entry has.
abbrev pub HasFd : CacheEntry → Type 0
HasFd e = (e.map ≡ none) ⊎ ((fd : ℕ) × (e.fd ≡ some fd))

-- As many descriptors are open as entries are mapped.
pub record IsBalanced (s : Cache) : Type 0 where
  pub count : opens s.calls ≡ closes s.calls + (live s.entry0.map + live s.entry1.map)
  pub fd0 : HasFd s.entry0
  pub fd1 : HasFd s.entry1

pub note-IsBalanced : (s : Cache) (a b : ℕ) → IsBalanced s → IsBalanced (note (helper a b) s)
note-IsBalanced s a b h = record { count = h.count; fd0 = h.fd0; fd1 = h.fd1 }

abbrev emptied : Slot → ℕ → Cache → Cache
emptied i m s =
    store i (record (entry i s) { map = none })
      (note (closed (entry i s).fd) (note (unmapped m (entry i s).length) s))

close_mmap_mapped :
    (i : Slot) (s : Cache) (m : ℕ) → (entry i s).map ≡ some m → close_mmap i s ≡ emptied i m s
unfolding close_mmap
close_mmap_mapped slot0 s m e = rw e refl
close_mmap_mapped slot1 s m e = rw e refl

close_mmap_unmapped : (i : Slot) (s : Cache) → (entry i s).map ≡ none → close_mmap i s ≡ s
unfolding close_mmap
close_mmap_unmapped slot0 s e = rw e refl
close_mmap_unmapped slot1 s e = rw e refl

pub close_mmap-map : (i : Slot) (s : Cache) → (entry i (close_mmap i s)).map ≡ none
close_mmap-map i s = elim (Option-cases (entry i s).map) [
  | inl e ↦ ap (λ t. (entry i t).map) (close_mmap_unmapped i s e) ∙ e
  | inr (m, e) ↦ ap (λ t. (entry i t).map) (close_mmap_mapped i s m e) ∙ emptied-map i m s
]
  where
    emptied-map : (i : Slot) (m : ℕ) (s : Cache) → (entry i (emptied i m s)).map ≡ none
    emptied-map slot0 m s = refl
    emptied-map slot1 m s = refl

fd_of :
    (o f : Option ℕ) (m : ℕ)
    → o ≡ some m
    → (o ≡ none) ⊎ ((fd : ℕ) × (f ≡ some fd))
    → (fd : ℕ) × (f ≡ some fd)
fd_of o f m e (inl gone) = absurd (omega (arith, ap live e, ap live gone))
fd_of o f m e (inr fd) = fd

emptied-IsBalanced :
    (i : Slot) (m : ℕ) (s : Cache)
    → (entry i s).map ≡ some m
    → IsBalanced s
    → IsBalanced (emptied i m s)
emptied-IsBalanced slot0 m s e h =
    let (fd, f) = fd_of s.entry0.map s.entry0.fd m e h.fd0 in
    let one = ap live e in
    let gone = ap (λ t. closes (closed t ∷ unmapped m s.entry0.length ∷ s.calls)) f in
    record { count = omega (arith, h.count, one, gone); fd0 = inl refl; fd1 = h.fd1 }
emptied-IsBalanced slot1 m s e h =
    let (fd, f) = fd_of s.entry1.map s.entry1.fd m e h.fd1 in
    let one = ap live e in
    let gone = ap (λ t. closes (closed t ∷ unmapped m s.entry1.length ∷ s.calls)) f in
    record { count = omega (arith, h.count, one, gone); fd0 = h.fd0; fd1 = inl refl }

pub close_mmap-IsBalanced : (i : Slot) (s : Cache) → IsBalanced s → IsBalanced (close_mmap i s)
close_mmap-IsBalanced i s h = elim (Option-cases (entry i s).map) [
  | inl e ↦ rw (close_mmap_unmapped i s e) h
  | inr (m, e) ↦ rw (close_mmap_mapped i s m e) (emptied-IsBalanced i m s e h)
]

module _ (paddr length : ℕ) (file : List ℕ) (s : Cache) (h : IsBalanced s) where
  abbrev unopened : Slot → Cache
  unopened i = store i (record (entry i s) { paddr = paddr; fd = none }) s

  abbrev refused : Slot → ℕ → Cache
  refused i fd =
      store i (record (entry i s) { paddr = paddr; fd = some fd; length = length; map = none })
        (note (closed (some fd)) (note (opened file fd) s))

  abbrev filled : Slot → ℕ → ℕ → Cache
  filled i fd m =
      store i (record (entry i s) { paddr = paddr; fd = some fd; length = length; map = some m })
        (note (mapped m length fd) (note (opened file fd) s))

  unopened-IsBalanced : (i : Slot) → (entry i s).map ≡ none → IsBalanced (unopened i)
  unopened-IsBalanced slot0 e = record { count = h.count; fd0 = inl e; fd1 = h.fd1 }
  unopened-IsBalanced slot1 e = record { count = h.count; fd0 = h.fd0; fd1 = inl e }

  refused-IsBalanced : (i : Slot) (fd : ℕ) → (entry i s).map ≡ none → IsBalanced (refused i fd)
  refused-IsBalanced slot0 fd e = record {
    count = omega (arith, h.count, ap live e);
    fd0 = inl refl;
    fd1 = h.fd1;
  }
  refused-IsBalanced slot1 fd e = record {
    count = omega (arith, h.count, ap live e);
    fd0 = h.fd0;
    fd1 = inl refl;
  }

  filled-IsBalanced : (i : Slot) (fd m : ℕ) → (entry i s).map ≡ none → IsBalanced (filled i fd m)
  filled-IsBalanced slot0 fd m e = record {
    count = omega (arith, h.count, ap live e);
    fd0 = inr (fd, refl);
    fd1 = h.fd1;
  }
  filled-IsBalanced slot1 fd m e = record {
    count = omega (arith, h.count, ap live e);
    fd0 = h.fd0;
    fd1 = inr (fd, refl);
  }

  filled-paddr : (i : Slot) (fd m : ℕ) → (entry i (filled i fd m)).paddr ≡ paddr
  filled-paddr slot0 fd m = refl
  filled-paddr slot1 fd m = refl

-- How `map_file`, or the helper before it, ends: the entry is for the address if the function goes
-- on.
pub data Fetched (paddr : ℕ) (i : Slot) (r : Bool × Cache) : Type 0 where
  stopped : (s' : Cache) → r ≡ (false, s') → IsBalanced s' → Fetched paddr i r
  fetched :
      (s' : Cache) → r ≡ (true, s') → IsBalanced s' → (entry i s').paddr ≡ paddr → Fetched paddr i r

module _ (system : System) (paddr sig length : ℕ) (i : Slot) where
  map_file-Fetched :
      (file : List ℕ) (s : Cache)
      → IsBalanced s
      → (entry i s).map ≡ none
      → Fetched paddr i (map_file system paddr length i file s)
  unfolding map_file
  map_file-Fetched file s h e = elim (Option-cases (system.open_file s.calls file)) [
    | inl f ↦
        stopped (unopened paddr length file s h i) (rw (f, map_file) refl)
          (unopened-IsBalanced paddr length file s h i e)
    | inr (fd, f) ↦ elim (Option-cases (system.mmap (opened file fd ∷ s.calls) length fd)) [
      | inl g ↦
          stopped (refused paddr length file s h i fd) (rw (f, g, map_file) refl)
            (refused-IsBalanced paddr length file s h i fd e)
      | inr (m, g) ↦
          fetched (filled paddr length file s h i fd m) (rw (f, g, map_file) refl)
            (filled-IsBalanced paddr length file s h i fd m e)
            (filled-paddr paddr length file s h i fd m)
    ]
  ]

  helper-map :
      (s : Cache) (a b : ℕ) → (entry i s).map ≡ none → (entry i (note (helper a b) s)).map ≡ none
  helper-map s a b e = e' i e
    where
      e' : (j : Slot) → (entry j s).map ≡ none → (entry j (note (helper a b) s)).map ≡ none
      e' slot0 x = x
      e' slot1 x = x

  pub fetch-Fetched :
      (s : Cache)
      → IsBalanced s
      → (entry i s).map ≡ none
      → Fetched paddr i (fetch system paddr sig length i s)
  unfolding fetch
  fetch-Fetched s h e =
      let s1 = note (helper (paddr % 2 ^ 32) sig) s in
      let h1 = note-IsBalanced s (paddr % 2 ^ 32) sig h in
      elim (Option-cases (file_of system (system.reply s.calls (paddr % 2 ^ 32) sig))) [
        | inl f ↦ stopped s1 (rw (f, fetch) refl) h1
        | inr (file, f) ↦
            rw (f, fetch) (map_file-Fetched file s1 h1 (helper-map s (paddr % 2 ^ 32) sig e))
      ]
