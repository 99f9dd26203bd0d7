-- ===== src/Freon.antt =====
-- src/freon.c: the wrappers of ioctl, open and close that are preloaded into Xorg, and the display
-- lock. The functions behind the wrappers, and the other calls of the system, are answered by an
-- argument.
pub mod Lock
pub mod Ownership
pub mod Opened
pub mod Session
use chroagh.Base.{
  ℕ, ◌==◌, ◌&&◌, ◌||◌, if◌then◌else◌, Bool, true, false, Option, none, some, List, [], ◌∷◌,
}

-- A file descriptor; `none` is -1.
abbrev pub Fd : Type 0
Fd = Option ℕ

-- The requests that the wrapper looks at.
pub data Request : Type 0 where
  vt_openqry : Request
  vt_getstate : Request
  vt_reldisp : Request
  vt_activate : Request
  eviocgrab : Request
  other : ℕ → Request

-- The two methods of `FREON_DBUS_METHOD_CALL`.
pub data Method : Type 0 where
  take_display_ownership : Method
  release_display_ownership : Method

-- The paths that `open` tells apart.
pub data FileName : Type 0 where
  tty0 : FileName
  tty7 : FileName
  input_event : ℕ → FileName
  other_file : ℕ → FileName

-- The calls of the system, and the stores through the pointer that `ioctl` is given.
pub data Call : Type 0 where
  mkdir : Call
  open_lock : Call
  flock : Fd → Call
  ftruncate : Fd → Call
  snprintf : ℕ → Call
  write_pid : Fd → ℕ → Call
  orig_close : Fd → Call
  orig_open : FileName → Call
  open_null : Call
  orig_ioctl : Fd → Request → ℕ → Call
  dbus : Method → Call
  store : ℕ → ℕ → Call

-- What the system answers to a call after the calls so far; `none` is -1.
abbrev pub System : Type 0
System = List Call → Call → Option ℕ

-- The globals, and the calls so far, the newest first.
pub record Freon : Type 0 where
  pub tty0fd : Fd
  pub tty7fd : Fd
  pub lockfd : Fd
  pub calls : List Call

abbrev pub answer_of : System → Call → Freon → Option ℕ
answer_of system c s = system s.calls c

abbrev pub after : Call → Freon → Freon
after c s = record s { calls = c ∷ s.calls }

abbrev pub fd_eq : Fd → Fd → Bool
fd_eq none none = true
fd_eq none (some b) = false
fd_eq (some a) none = false
fd_eq (some a) (some b) = a == b

abbrev pub is_ok : Option ℕ → Bool
is_ok none = false
is_ok (some n) = true

-- The end of `set_display_lock`: the lock is given up for pid 0. The Boolean is the test of the
-- result for 0 here and below.
unfoldable pub give_up : System → ℕ → Freon → Bool × Freon
give_up system pid s =
    if pid == 0
    then (
      is_ok (answer_of system (orig_close s.lockfd) s),
      record s { lockfd = none; calls = orig_close s.lockfd ∷ s.calls },
    )
    else (true, s)

-- The pid is written into the lock file.
unfoldable pub note_owner : System → ℕ → Freon → Bool × Freon
note_owner system pid s =
    let s1 = after (ftruncate s.lockfd) s in
    let s2 = after (snprintf pid) s1 in
    let s3 = after (write_pid s.lockfd pid) s2 in
    elim (answer_of system (ftruncate s.lockfd) s) [
      | none ↦ (false, s1)
      | some _ ↦ elim (answer_of system (snprintf pid) s1) [
        | none ↦ (false, s2)
        | some _ ↦ elim (answer_of system (write_pid s.lockfd pid) s2) [
          | none ↦ (false, s3)
          | some _ ↦ give_up system pid s3
        ]
      ]
    ]

-- The lock file is opened and locked. If the lock fails, `lockfd` stays set.
unfoldable pub take_lock : System → ℕ → Freon → Bool × Freon
take_lock system pid s =
    let s1 = after mkdir s in
    elim (answer_of system open_lock s1) [
      | none ↦ (false, after open_lock s1)
      | some fd ↦
          let s2 = record s1 { lockfd = some fd; calls = open_lock ∷ s1.calls } in
          elim (answer_of system (flock (some fd)) s2) [
            | none ↦ (false, after (flock (some fd)) s2)
            | some _ ↦ note_owner system pid (after (flock (some fd)) s2)
          ]
    ]

unfoldable pub set_display_lock : System → ℕ → Freon → Bool × Freon
set_display_lock system pid s = elim s.lockfd [
  | none ↦ if pid == 0 then (true, s) else take_lock system pid s
  | some _ ↦ note_owner system pid s
]

-- `ret`, 0 unless it is set.
abbrev pub succeed : Freon → Option ℕ × Freon
succeed s = (some 0, s)

-- Chromium OS gets the display back.
unfoldable pub leave : System → Freon → Option ℕ × Freon
leave system s = elim s.lockfd [
  | none ↦ succeed s
  | some _ ↦
      let c = dbus take_display_ownership in
      (answer_of system c s, (set_display_lock system 0 (after c s)).1)
]

-- The display is claimed for the process `pid`.
unfoldable pub enter : System → ℕ → Freon → Option ℕ × Freon
enter system pid s =
    let (ok, s1) = set_display_lock system pid s in
    let c = dbus release_display_ownership in
    if ok then (answer_of system c s1, after c s1) else (none, s1)

-- The requests on /dev/tty7.
unfoldable pub ioctl_tty7 : System → ℕ → Request → ℕ → Freon → Option ℕ × Freon
ioctl_tty7 system pid vt_reldisp data' s =
    if data' == 1 then leave system s else if data' == 2 then enter system pid s else succeed s
ioctl_tty7 system pid vt_activate data' s =
    if data' == 0 then leave system s else if data' == 7 then enter system pid s else succeed s
ioctl_tty7 system pid vt_getstate data' s = succeed (after (store data' 0) s)
ioctl_tty7 system pid vt_openqry data' s = succeed s
ioctl_tty7 system pid eviocgrab data' s = succeed s
ioctl_tty7 system pid (other r) data' s = succeed s

abbrev pub ioctl_tty0 : Request → ℕ → Freon → Option ℕ × Freon
ioctl_tty0 vt_openqry data' s = succeed (after (store data' 7) s)
ioctl_tty0 _ data' s = succeed s

abbrev pub ioctl_other : System → Fd → Request → ℕ → Freon → Option ℕ × Freon
ioctl_other system fd eviocgrab data' s = succeed s
ioctl_other system fd request data' s =
    let c = orig_ioctl fd request data' in (answer_of system c s, after c s)

unfoldable pub ioctl : System → ℕ → Fd → Request → ℕ → Freon → Option ℕ × Freon
ioctl system pid fd request data' s =
    if fd_eq fd s.tty0fd
    then ioctl_tty0 request data' s
    else if fd_eq fd s.tty7fd
    then ioctl_tty7 system pid request data' s
    else ioctl_other system fd request data' s

-- `open`. Input devices are grabbed as they are opened, with 1 as the data.
unfoldable pub open_path : System → FileName → Freon → Fd × Freon
open_path system tty0 s =
    let fd = answer_of system open_null s in
    (fd, record s { tty0fd = fd; calls = open_null ∷ s.calls })
open_path system tty7 s =
    let fd = answer_of system open_null s in
    (fd, record s { tty7fd = fd; calls = open_null ∷ s.calls })
open_path system (input_event n) s =
    let c = orig_open (input_event n) in
    let fd = answer_of system c s in (fd, after (orig_ioctl fd eviocgrab 1) (after c s))
open_path system (other_file n) s =
    let c = orig_open (other_file n) in (answer_of system c s, after c s)

unfoldable pub close : System → Fd → Freon → Option ℕ × Freon
close system fd s =
    let s1 =
      if fd_eq fd s.tty0fd
      then record s { tty0fd = none }
      else if fd_eq fd s.tty7fd
      then record s { tty7fd = none }
      else s in
    (answer_of system (orig_close fd) s1, after (orig_close fd) s1)
