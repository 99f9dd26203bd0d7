-- ===== src/Examples/Display.antt =====
-- The display lock of src/freon.c at concrete inputs.
use chroagh.Base.{◌≡◌, refl, true, some, List, [], ◌∷◌, arith}
use chroagh.Freon.{
  open_lock, open_null, vt_reldisp, vt_activate, tty7, System, open_path, ioctl, ioctl_tty7, enter,
  leave, take_lock, note_owner, give_up, close, set_display_lock,
}
use chroagh.Freon.Lock.{Claims, set_display_lock-Claims}
use chroagh.Freon.Session.{
  Wrapped, call_ioctl, call_open, call_close, session, start, is_locked, all_spare,
  session-is_locked,
}

-- Every call succeeds.
abbrev system : System
system calls open_lock = some 9
system calls open_null = some 7
system calls c = some 0

-- The display is claimed, given back and claimed again, and another file is closed.
abbrev calls : List Wrapped
calls =
    call_open tty7
    ∷ call_ioctl (some 7) vt_activate 7
    ∷ call_ioctl (some 7) vt_reldisp 1
    ∷ call_ioctl (some 7) vt_reldisp 2
    ∷ call_close (some 3)
    ∷ []

spare : all_spare system 4711 calls start ≡ true
unfolding open_path ioctl ioctl_tty7 enter leave set_display_lock take_lock note_owner give_up close
spare = refl

session-is_locked_example : is_locked system (session system 4711 calls start) ≡ true
session-is_locked_example = session-is_locked system 4711 calls (omega arith) spare

set_display_lock-Claims_example : Claims system 4711 start (set_display_lock system 4711 start)
set_display_lock-Claims_example = set_display_lock-Claims system 4711 (omega arith) start
