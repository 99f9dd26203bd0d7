-- ===== src/Freon/Opened.antt =====
-- What becomes of the descriptor of the lock file of src/freon.c.
use chroagh.Base.{
  ℕ, ◌==◌, ==_iff, ◌&&◌, ◌||◌, ◌≡◌, refl, ap, inl, inr, Option-cases, Bool-cases, not, Bool, true,
  false, none, some, List, [], ◌∷◌,
}
use chroagh.Freon.{
  Fd, Request, vt_openqry, vt_getstate, vt_reldisp, vt_activate, eviocgrab, other, FileName, tty0,
  tty7, input_event, other_file, take_display_ownership, Call, mkdir, open_lock, flock, ftruncate,
  snprintf, write_pid, orig_close, orig_open, open_null, orig_ioctl, dbus, store, System, Freon,
  answer_of, after, fd_eq, is_ok, give_up, note_owner, take_lock, set_display_lock, leave, enter,
  ioctl_tty0, ioctl_tty7, ioctl_other, ioctl, open_path, close,
}

-- The last open of the lock file returned the descriptor, and it was not closed since.
abbrev pub held : System → Fd → List Call → Bool
held system fd [] = false
held system fd (open_lock ∷ cs) = fd_eq fd (system cs open_lock)
held system fd (orig_close f ∷ cs) = not (fd_eq f fd) && held system fd cs
held system fd (mkdir ∷ cs) = held system fd cs
held system fd (flock f ∷ cs) = held system fd cs
held system fd (ftruncate f ∷ cs) = held system fd cs
held system fd (snprintf pid ∷ cs) = held system fd cs
held system fd (write_pid f pid ∷ cs) = held system fd cs
held system fd (orig_open p ∷ cs) = held system fd cs
held system fd (open_null ∷ cs) = held system fd cs
held system fd (orig_ioctl f r d ∷ cs) = held system fd cs
held system fd (dbus m ∷ cs) = held system fd cs
held system fd (store a v ∷ cs) = held system fd cs

-- If the variable has a descriptor, that is the lock file's.
abbrev pub IsGood : System → Freon → Type 0
IsGood system s = (not (is_ok s.lockfd) || held system s.lockfd s.calls) ≡ true

module _ (system : System) (pid : ℕ) where
  give_up-IsGood : (s : Freon) → IsGood system s → IsGood system (give_up system pid s).1
  unfolding give_up
  give_up-IsGood s h = elim (Bool-cases (pid == 0)) [ inl z ↦ rw z refl | inr z ↦ rw z h ]

  note_owner-IsGood : (s : Freon) → IsGood system s → IsGood system (note_owner system pid s).1
  unfolding note_owner
  note_owner-IsGood s h =
      let s1 = after (ftruncate s.lockfd) s in
      let s2 = after (snprintf pid) s1 in
      let s3 = after (write_pid s.lockfd pid) s2 in
      elim (Option-cases (answer_of system (ftruncate s.lockfd) s)) [
        | inl e ↦ rw (e, note_owner) h
        | inr (_, e) ↦ elim (Option-cases (answer_of system (snprintf pid) s1)) [
          | inl f ↦ rw (e, f, note_owner) h
          | inr (_, f) ↦ elim (Option-cases (answer_of system (write_pid s.lockfd pid) s2)) [
            | inl g ↦ rw (e, f, g, note_owner) h
            | inr (_, g) ↦ rw (e, f, g, note_owner) (give_up-IsGood s3 h)
          ]
        ]
      ]

  take_lock-IsGood :
      (s : Freon) → IsGood system s → s.lockfd ≡ none → IsGood system (take_lock system pid s).1
  unfolding take_lock
  take_lock-IsGood s h closed =
      let s1 = after mkdir s in
      elim (Option-cases (answer_of system open_lock s1)) [
        | inl e ↦
            rw (e, take_lock)
              (ap (λ o. not (is_ok o) || fd_eq o (system s1.calls open_lock)) closed)
        | inr (fd, e) ↦
            let s2 : Freon = record s1 { lockfd = some fd; calls = open_lock ∷ s1.calls } in
            let same : (fd == fd) ≡ true = (==_iff fd fd).1 refl in
            let good : fd_eq (some fd) (system s1.calls open_lock) ≡ true = rw e same in
            elim (Option-cases (answer_of system (flock (some fd)) s2)) [
              | inl f ↦ rw (e, f, take_lock) good
              | inr (_, f) ↦
                  rw (e, f, take_lock) (note_owner-IsGood (after (flock (some fd)) s2) good)
            ]
      ]

  set_display_lock-IsGood :
      (s : Freon) → IsGood system s → IsGood system (set_display_lock system pid s).1
  unfolding set_display_lock
  set_display_lock-IsGood s h = elim (Option-cases s.lockfd) [
    | inl closed ↦ elim (Bool-cases (pid == 0)) [
      | inl z ↦ rw (closed, z, set_display_lock) h
      | inr z ↦ rw (closed, z, set_display_lock) (take_lock-IsGood s h closed)
    ]
    | inr (fd, e) ↦ rw (e, set_display_lock) (note_owner-IsGood s h)
  ]

module _ (system : System) (pid : ℕ) where
  leave-IsGood : (s : Freon) → IsGood system s → IsGood system (leave system s).1
  unfolding leave
  leave-IsGood s h = elim (Option-cases s.lockfd) [
    | inl closed ↦ rw (closed, leave) h
    | inr (fd, e) ↦
        rw (e, leave) (set_display_lock-IsGood system 0 (after (dbus take_display_ownership) s) h)
  ]

  enter-IsGood : (s : Freon) → IsGood system s → IsGood system (enter system pid s).1
  unfolding enter
  enter-IsGood s h =
      let r = set_display_lock system pid s in
      let g = set_display_lock-IsGood system pid s h in
      elim (Bool-cases r.0) [ inl e ↦ rw e g | inr e ↦ rw e g ]

  tty7-IsGood :
      (request : Request) (data' : ℕ) (s : Freon)
      → IsGood system s
      → IsGood system (ioctl_tty7 system pid request data' s).1
  unfolding ioctl_tty7
  tty7-IsGood vt_reldisp data' s h = elim (Bool-cases (data' == 1)) [
    | inl one ↦ rw one (leave-IsGood s h)
    | inr other' ↦ elim (Bool-cases (data' == 2)) [
      | inl two ↦ rw (other', two) (enter-IsGood s h)
      | inr more ↦ rw (other', more) h
    ]
  ]
  tty7-IsGood vt_activate data' s h = elim (Bool-cases (data' == 0)) [
    | inl one ↦ rw one (leave-IsGood s h)
    | inr other' ↦ elim (Bool-cases (data' == 7)) [
      | inl two ↦ rw (other', two) (enter-IsGood s h)
      | inr more ↦ rw (other', more) h
    ]
  ]
  tty7-IsGood vt_getstate data' s h = h
  tty7-IsGood vt_openqry data' s h = h
  tty7-IsGood eviocgrab data' s h = h
  tty7-IsGood (other r) data' s h = h

  tty0-IsGood :
      (request : Request) (data' : ℕ) (s : Freon)
      → IsGood system s
      → IsGood system (ioctl_tty0 request data' s).1
  tty0-IsGood vt_openqry data' s h = h
  tty0-IsGood vt_getstate data' s h = h
  tty0-IsGood vt_reldisp data' s h = h
  tty0-IsGood vt_activate data' s h = h
  tty0-IsGood eviocgrab data' s h = h
  tty0-IsGood (other r) data' s h = h

  other-IsGood :
      (fd : Fd) (request : Request) (data' : ℕ) (s : Freon)
      → IsGood system s
      → IsGood system (ioctl_other system fd request data' s).1
  other-IsGood fd vt_openqry data' s h = h
  other-IsGood fd vt_getstate data' s h = h
  other-IsGood fd vt_reldisp data' s h = h
  other-IsGood fd vt_activate data' s h = h
  other-IsGood fd eviocgrab data' s h = h
  other-IsGood fd (other r) data' s h = h

  pub ioctl-IsGood :
      (fd : Fd) (request : Request) (data' : ℕ) (s : Freon)
      → IsGood system s
      → IsGood system (ioctl system pid fd request data' s).1
  unfolding ioctl
  ioctl-IsGood fd request data' s h = elim (Bool-cases (fd_eq fd s.tty0fd)) [
    | inl a ↦ rw a (tty0-IsGood request data' s h)
    | inr a ↦ elim (Bool-cases (fd_eq fd s.tty7fd)) [
      | inl b ↦ rw (a, b) (tty7-IsGood request data' s h)
      | inr b ↦ rw (a, b) (other-IsGood fd request data' s h)
    ]
  ]

  pub open_path-IsGood :
      (name : FileName) (s : Freon) → IsGood system s → IsGood system (open_path system name s).1
  unfolding open_path
  open_path-IsGood tty0 s h = h
  open_path-IsGood tty7 s h = h
  open_path-IsGood (input_event n) s h = h
  open_path-IsGood (other_file n) s h = h

-- A wrapper is not called to close the descriptor of the lock file.
abbrev pub spares_lock : Fd → Fd → Bool
spares_lock none lock = true
spares_lock (some n) lock = not (fd_eq (some n) lock)

spared :
    (system : System) (fd lock : Fd) (cs : List Call)
    → spares_lock fd lock ≡ true
    → (not (is_ok lock) || held system lock cs) ≡ true
    → (not (is_ok lock) || (not (fd_eq fd lock) && held system lock cs)) ≡ true
spared system none none cs e h = refl
spared system (some n) none cs e h = refl
spared system none (some m) cs e h = h
spared system (some n) (some m) cs e h = rw e h

IsGood-same :
    (system : System) (t : Freon) (lock : Fd) (cs : List Call)
    → t.lockfd ≡ lock
    → t.calls ≡ cs
    → (not (is_ok lock) || held system lock cs) ≡ true
    → IsGood system t
IsGood-same system t lock cs e e' h = rw (e, e') h

pub close-IsGood :
    (system : System) (fd : Fd) (s : Freon)
    → spares_lock fd s.lockfd ≡ true
    → IsGood system s
    → IsGood system (close system fd s).1
unfolding close
close-IsGood system fd s e h =
    let g = spared system fd s.lockfd s.calls e h in
    elim (Bool-cases (fd_eq fd s.tty0fd)) [
      | inl a ↦
          IsGood-same system (close system fd s).1 s.lockfd (orig_close fd ∷ s.calls)
            (rw (a, close) refl) (rw (a, close) refl) g
      | inr a ↦ elim (Bool-cases (fd_eq fd s.tty7fd)) [
        | inl b ↦
            IsGood-same system (close system fd s).1 s.lockfd (orig_close fd ∷ s.calls)
              (rw (a, b, close) refl) (rw (a, b, close) refl) g
        | inr b ↦
            IsGood-same system (close system fd s).1 s.lockfd (orig_close fd ∷ s.calls)
              (rw (a, b, close) refl) (rw (a, b, close) refl) g
      ]
    ]
