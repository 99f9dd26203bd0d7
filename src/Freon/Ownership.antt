-- ===== src/Freon/Ownership.antt =====
-- What Chromium OS was told last, and the variable `lockfd`.
use chroagh.Base.{
  ℕ, ◌==◌, ◌||◌, ◌≡◌, ◌≢◌, refl, ap, ◌∙◌, inl, inr, Option-cases, Bool-cases, not, Bool, true,
  false, none, some, arith,
}
use chroagh.Freon.{
  Request, vt_openqry, vt_getstate, vt_reldisp, vt_activate, eviocgrab, other,
  take_display_ownership, ftruncate, snprintf, write_pid, dbus, System, Freon, answer_of, after,
  is_ok, give_up, note_owner, set_display_lock, leave, enter, ioctl_tty7,
}
use chroagh.Freon.Lock.{owns, Claims, failed, renewed, taken, set_display_lock-Claims}

-- If Chromium OS was told last to drop the display, `lockfd` is not -1.
abbrev pub is_safe : Freon → Bool
is_safe s = not (owns s.calls) || is_ok s.lockfd

safe_unowned : (s : Freon) → owns s.calls ≡ false → is_safe s ≡ true
safe_unowned s h = ap (λ b. not b || is_ok s.lockfd) h

still_safe :
    (a b c d : Bool) → (not a || b) ≡ true → c ≡ a → (not b || d) ≡ true → (not c || d) ≡ true
still_safe true true c d h e k = rw e k
still_safe true false c d h e k = absurd (ground arith)
still_safe false b c d h e k = rw e refl

give_up-owns :
    (system : System) (pid : ℕ) (s : Freon) → owns (give_up system pid s).1.calls ≡ owns s.calls
unfolding give_up
give_up-owns system pid s = elim (Bool-cases (pid == 0)) [ inl z ↦ rw z refl | inr z ↦ rw z refl ]

note_owner-owns :
    (system : System) (pid : ℕ) (s : Freon) → owns (note_owner system pid s).1.calls ≡ owns s.calls
unfolding note_owner
note_owner-owns system pid s =
    let s1 = after (ftruncate s.lockfd) s in
    let s2 = after (snprintf pid) s1 in
    let s3 = after (write_pid s.lockfd pid) s2 in
    elim (Option-cases (answer_of system (ftruncate s.lockfd) s)) [
      | inl e ↦ rw (e, note_owner) refl
      | inr (_, e) ↦ elim (Option-cases (answer_of system (snprintf pid) s1)) [
        | inl f ↦ rw (e, f, note_owner) refl
        | inr (_, f) ↦ elim (Option-cases (answer_of system (write_pid s.lockfd pid) s2)) [
          | inl g ↦ rw (e, f, g, note_owner) refl
          | inr (_, g) ↦ rw (e, f, g, note_owner) (give_up-owns system pid s3)
        ]
      ]
    ]

leave_held :
    (system : System) (s : Freon) (fd : ℕ)
    → s.lockfd ≡ some fd
    → (leave system s).1 ≡ (note_owner system 0 (after (dbus take_display_ownership) s)).1
unfolding leave set_display_lock
leave_held system s fd open_fd = rw open_fd refl

leave_unheld : (system : System) (s : Freon) → s.lockfd ≡ none → (leave system s).1 ≡ s
unfolding leave
leave_unheld system s closed = rw closed refl

leave-is_safe : (system : System) (s : Freon) → is_safe s ≡ true → is_safe (leave system s).1 ≡ true
leave-is_safe system s h = elim (Option-cases s.lockfd) [
  | inl closed ↦ ap is_safe (leave_unheld system s closed) ∙ h
  | inr (fd, open_fd) ↦
      ap is_safe (leave_held system s fd open_fd)
      ∙ safe_unowned (note_owner system 0 (after (dbus take_display_ownership) s)).1
          (note_owner-owns system 0 (after (dbus take_display_ownership) s))
]

module _ (system : System) (pid : ℕ) (someone : pid ≢ 0) where
  enter_claimed :
      (s : Freon)
      → is_safe s ≡ true
      → Claims system pid s (set_display_lock system pid s)
      → is_safe (enter system pid s).1 ≡ true
  unfolding enter
  enter_claimed s h (failed s' e o kept) = rw (e, enter) (still_safe _ _ _ _ h o kept)
  enter_claimed s h (renewed fd s' _ e l c n) = rw (e, enter) (ap is_ok l)
  enter_claimed s h (taken fd s' _ e l c o k n) = rw (e, enter) (ap is_ok l)

  enter-is_safe : (s : Freon) → is_safe s ≡ true → is_safe (enter system pid s).1 ≡ true
  enter-is_safe s h = enter_claimed s h (set_display_lock-Claims system pid someone s)

  pub tty7-is_safe :
      (request : Request) (data' : ℕ) (s : Freon)
      → is_safe s ≡ true
      → is_safe (ioctl_tty7 system pid request data' s).1 ≡ true
  unfolding ioctl_tty7
  tty7-is_safe vt_reldisp data' s h = elim (Bool-cases (data' == 1)) [
    | inl one ↦ rw one (leave-is_safe system s h)
    | inr other' ↦ elim (Bool-cases (data' == 2)) [
      | inl two ↦ rw (other', two) (enter-is_safe s h)
      | inr more ↦ rw (other', more) h
    ]
  ]
  tty7-is_safe vt_activate data' s h = elim (Bool-cases (data' == 0)) [
    | inl one ↦ rw one (leave-is_safe system s h)
    | inr other' ↦ elim (Bool-cases (data' == 7)) [
      | inl two ↦ rw (other', two) (enter-is_safe s h)
      | inr more ↦ rw (other', more) h
    ]
  ]
  tty7-is_safe vt_getstate data' s h = h
  tty7-is_safe vt_openqry data' s h = h
  tty7-is_safe eviocgrab data' s h = h
  tty7-is_safe (other r) data' s h = h
