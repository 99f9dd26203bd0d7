-- ===== src/Freon/Session.antt =====
-- A session of Xorg as a sequence of calls of the wrappers in src/freon.c.
use chroagh.Base.{
  ℕ, ◌≡◌, ◌≢◌, refl, inl, inr, Bool-cases, Bool, not, ◌&&◌, ◌||◌, true, false, arith, none, List,
  [], ◌∷◌,
}
use chroagh.Freon.{
  Fd, Request, vt_openqry, vt_getstate, vt_reldisp, vt_activate, eviocgrab, other, FileName, tty0,
  tty7, input_event, other_file, System, Freon, fd_eq, is_ok, ioctl_tty0, ioctl_other, ioctl,
  open_path, close,
}
use chroagh.Freon.Lock.{owns}
use chroagh.Freon.Ownership.{is_safe, tty7-is_safe}
use chroagh.Freon.Opened.{held, IsGood, spares_lock, ioctl-IsGood, open_path-IsGood, close-IsGood}

pub data Wrapped : Type 0 where
  call_ioctl : Fd → Request → ℕ → Wrapped
  call_open : FileName → Wrapped
  call_close : Fd → Wrapped

abbrev pub step : System → ℕ → Wrapped → Freon → Freon
step system pid (call_ioctl fd request data') s = (ioctl system pid fd request data' s).1
step system pid (call_open name) s = (open_path system name s).1
step system pid (call_close fd) s = (close system fd s).1

-- The calls in order, from the start of the process.
abbrev pub session : System → ℕ → List Wrapped → Freon → Freon
session system pid [] s = s
session system pid (c ∷ cs) s = session system pid cs (step system pid c s)

abbrev pub start : Freon
start = record { tty0fd = none; tty7fd = none; lockfd = none; calls = [] }

tty0-is_safe :
    (request : Request) (data' : ℕ) (s : Freon)
    → is_safe s ≡ true
    → is_safe (ioctl_tty0 request data' s).1 ≡ true
tty0-is_safe vt_openqry data' s h = h
tty0-is_safe vt_getstate data' s h = h
tty0-is_safe vt_reldisp data' s h = h
tty0-is_safe vt_activate data' s h = h
tty0-is_safe eviocgrab data' s h = h
tty0-is_safe (other r) data' s h = h

other-is_safe :
    (system : System) (fd : Fd) (request : Request) (data' : ℕ) (s : Freon)
    → is_safe s ≡ true
    → is_safe (ioctl_other system fd request data' s).1 ≡ true
other-is_safe system fd vt_openqry data' s h = h
other-is_safe system fd vt_getstate data' s h = h
other-is_safe system fd vt_reldisp data' s h = h
other-is_safe system fd vt_activate data' s h = h
other-is_safe system fd eviocgrab data' s h = h
other-is_safe system fd (other r) data' s h = h

open_path-is_safe :
    (system : System) (name : FileName) (s : Freon)
    → is_safe s ≡ true
    → is_safe (open_path system name s).1 ≡ true
unfolding open_path
open_path-is_safe system tty0 s h = h
open_path-is_safe system tty7 s h = h
open_path-is_safe system (input_event n) s h = h
open_path-is_safe system (other_file n) s h = h

close-is_safe :
    (system : System) (fd : Fd) (s : Freon)
    → is_safe s ≡ true
    → is_safe (close system fd s).1 ≡ true
unfolding close
close-is_safe system fd s h = elim (Bool-cases (fd_eq fd s.tty0fd)) [
  | inl a ↦ rw a h
  | inr a ↦ elim (Bool-cases (fd_eq fd s.tty7fd)) [ inl b ↦ rw (a, b) h | inr b ↦ rw (a, b) h ]
]

module _ (system : System) (pid : ℕ) (someone : pid ≢ 0) where
  ioctl-is_safe :
      (fd : Fd) (request : Request) (data' : ℕ) (s : Freon)
      → is_safe s ≡ true
      → is_safe (ioctl system pid fd request data' s).1 ≡ true
  unfolding ioctl
  ioctl-is_safe fd request data' s h = elim (Bool-cases (fd_eq fd s.tty0fd)) [
    | inl a ↦ rw a (tty0-is_safe request data' s h)
    | inr a ↦ elim (Bool-cases (fd_eq fd s.tty7fd)) [
      | inl b ↦ rw (a, b) (tty7-is_safe system pid someone request data' s h)
      | inr b ↦ rw (a, b) (other-is_safe system fd request data' s h)
    ]
  ]

  step-is_safe : (c : Wrapped) (s : Freon) → is_safe s ≡ true → is_safe (step system pid c s) ≡ true
  step-is_safe (call_ioctl fd request data') s h = ioctl-is_safe fd request data' s h
  step-is_safe (call_open name) s h = open_path-is_safe system name s h
  step-is_safe (call_close fd) s h = close-is_safe system fd s h

  from_safe :
      (cs : List Wrapped) (s : Freon) → is_safe s ≡ true → is_safe (session system pid cs s) ≡ true
  from_safe [] s h = h
  from_safe (c ∷ cs) s h = from_safe cs (step system pid c s) (step-is_safe c s h)

-- Whether no wrapper is called to close the descriptor that `lockfd` has at that time.
abbrev pub spares : Wrapped → Freon → Bool
spares (call_ioctl fd request data') s = true
spares (call_open name) s = true
spares (call_close fd) s = spares_lock fd s.lockfd

abbrev pub all_spare : System → ℕ → List Wrapped → Freon → Bool
all_spare system pid [] s = true
all_spare system pid (c ∷ cs) s = spares c s && all_spare system pid cs (step system pid c s)

-- If Chromium OS was told last to drop the display, `lockfd` has the descriptor that the last open
-- of the lock file returned, and it was not closed since.
abbrev pub is_locked : System → Freon → Bool
is_locked system s = not (owns s.calls) || (is_ok s.lockfd && held system s.lockfd s.calls)

both_lem : (a b c : Bool) → (not a || b) ≡ true → (not b || c) ≡ true → (not a || (b && c)) ≡ true
both_lem false b c h e = refl
both_lem true true c h e = e
both_lem true false c h e = h

split_lem : (a b : Bool) → (a && b) ≡ true → (a ≡ true) × (b ≡ true)
split_lem true b e = (refl, e)
split_lem false b e = absurd (ground (arith, e))

step-IsGood :
    (system : System) (pid : ℕ) (c : Wrapped) (s : Freon)
    → spares c s ≡ true
    → IsGood system s
    → IsGood system (step system pid c s)
step-IsGood system pid (call_ioctl fd request data') s e h =
    ioctl-IsGood system pid fd request data' s h
step-IsGood system pid (call_open name) s e h = open_path-IsGood system pid name s h
step-IsGood system pid (call_close fd) s e h = close-IsGood system fd s e h

session-IsGood :
    (system : System) (pid : ℕ) (cs : List Wrapped) (s : Freon)
    → all_spare system pid cs s ≡ true
    → IsGood system s
    → IsGood system (session system pid cs s)
session-IsGood system pid [] s e h = h
session-IsGood system pid (c ∷ cs) s e h =
    let (a, b) = split_lem (spares c s) (all_spare system pid cs (step system pid c s)) e in
    session-IsGood system pid cs (step system pid c s) b (step-IsGood system pid c s a h)

-- Whatever the system answers, and whichever wrappers are called in whatever order by a process whose
-- pid is not 0, unless it closes the descriptor that is in `lockfd`: when Chromium OS was told last to
-- drop the display, and not to take it, `lockfd` has the descriptor that the last open of the lock
-- file returned, and it was not closed since.
pub session-is_locked :
    (system : System) (pid : ℕ) (cs : List Wrapped)
    → pid ≢ 0
    → all_spare system pid cs start ≡ true
    → is_locked system (session system pid cs start) ≡ true
session-is_locked system pid cs someone spare =
    let s = session system pid cs start in
    both_lem (owns s.calls) (is_ok s.lockfd) (held system s.lockfd s.calls)
      (from_safe system pid someone cs start refl) (session-IsGood system pid cs start spare refl)
