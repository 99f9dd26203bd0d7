-- ===== src/Freon/Lock.antt =====
-- The display lock of src/freon.c, whatever the system answers.
use chroagh.Base.{
  ℕ, ◌==◌, ◌||◌, ◌≡◌, ◌≢◌, refl, sym, ap, ◌∙◌, inl, inr, Option-cases, not, Bool, true, false, none,
  some, List, [], ◌∷◌, arith,
}
use mathlib.Core.Path.{subst}
use chroagh.Freon.{
  take_display_ownership, release_display_ownership, Call, mkdir, open_lock, flock, ftruncate,
  snprintf, write_pid, orig_close, orig_open, open_null, orig_ioctl, dbus, store, System, Freon,
  answer_of, after, is_ok, give_up, note_owner, take_lock, set_display_lock,
}

-- Whether Chromium OS was told last to drop the display.
abbrev pub owns : List Call → Bool
owns [] = false
owns (dbus release_display_ownership ∷ cs) = true
owns (dbus take_display_ownership ∷ cs) = false
owns (mkdir ∷ cs) = owns cs
owns (open_lock ∷ cs) = owns cs
owns (flock fd ∷ cs) = owns cs
owns (ftruncate fd ∷ cs) = owns cs
owns (snprintf pid ∷ cs) = owns cs
owns (write_pid fd pid ∷ cs) = owns cs
owns (orig_close fd ∷ cs) = owns cs
owns (orig_open p ∷ cs) = owns cs
owns (open_null ∷ cs) = owns cs
owns (orig_ioctl fd r d ∷ cs) = owns cs
owns (store a v ∷ cs) = owns cs

-- The lock file is emptied, and `pid` is printed and written into it, each call with success.
abbrev pub noted : ℕ → ℕ → List Call → List Call
noted fd pid cs = write_pid (some fd) pid ∷ snprintf pid ∷ ftruncate (some fd) ∷ cs

pub record Notes (system : System) (fd pid : ℕ) (cs : List Call) : Type 0 where
  pub emptied : is_ok (system cs (ftruncate (some fd))) ≡ true
  pub printed : is_ok (system (ftruncate (some fd) ∷ cs) (snprintf pid)) ≡ true
  pub written :
      is_ok (system (snprintf pid ∷ ftruncate (some fd) ∷ cs) (write_pid (some fd) pid)) ≡ true

-- How a claim of the display lock for `pid` ends. It fails, and a lock file that was open stays open;
-- or the pid is written into the file that was open; or into the file that is opened and locked.
pub data Claims (system : System) (pid : ℕ) (s : Freon) (r : Bool × Freon) : Type 0 where
  failed :
      (s' : Freon)
      → r ≡ (false, s')
      → owns s'.calls ≡ owns s.calls
      → (not (is_ok s.lockfd) || is_ok s'.lockfd) ≡ true
      → Claims system pid s r
  renewed :
      (fd : ℕ) (s' : Freon)
      → s.lockfd ≡ some fd
      → r ≡ (true, s')
      → s'.lockfd ≡ some fd
      → s'.calls ≡ noted fd pid s.calls
      → Notes system fd pid s.calls
      → Claims system pid s r
  taken :
      (fd : ℕ) (s' : Freon)
      → s.lockfd ≡ none
      → r ≡ (true, s')
      → s'.lockfd ≡ some fd
      → s'.calls ≡ noted fd pid (flock (some fd) ∷ open_lock ∷ mkdir ∷ s.calls)
      → system (mkdir ∷ s.calls) open_lock ≡ some fd
      → is_ok (system (open_lock ∷ mkdir ∷ s.calls) (flock (some fd))) ≡ true
      → Notes system fd pid (flock (some fd) ∷ open_lock ∷ mkdir ∷ s.calls)
      → Claims system pid s r

holding : (b : Bool) → (not b || b) ≡ true
holding true = refl
holding false = refl

module _ (system : System) (pid : ℕ) (someone : pid ≢ 0) where
  give_up_kept : (s : Freon) → give_up system pid s ≡ (true, s)
  unfolding give_up
  give_up_kept s = let nonzero : (pid == 0) ≡ false = ground arith in rw nonzero refl

  note_owner-Claims :
      (fd : ℕ) (s : Freon) → s.lockfd ≡ some fd → Claims system pid s (note_owner system pid s)
  unfolding note_owner
  note_owner-Claims fd s open_fd =
      let s1 = after (ftruncate s.lockfd) s in
      let s2 = after (snprintf pid) s1 in
      let s3 = after (write_pid s.lockfd pid) s2 in
      elim (Option-cases (answer_of system (ftruncate s.lockfd) s)) [
        | inl e ↦ failed s1 (rw (e, note_owner) refl) refl (holding (is_ok s.lockfd))
        | inr (_, e) ↦ elim (Option-cases (answer_of system (snprintf pid) s1)) [
          | inl f ↦ failed s2 (rw (e, f, note_owner) refl) refl (holding (is_ok s.lockfd))
          | inr (_, f) ↦ elim (Option-cases (answer_of system (write_pid s.lockfd pid) s2)) [
            | inl g ↦ failed s3 (rw (e, f, g, note_owner) refl) refl (holding (is_ok s.lockfd))
            | inr (_, g) ↦
                renewed fd s3 open_fd (rw (e, f, g, note_owner) (give_up_kept s3)) open_fd
                  (ap (λ t. write_pid t pid ∷ snprintf pid ∷ ftruncate t ∷ s.calls) open_fd)
                  (record {
                    emptied =
                        ap (λ t. is_ok (system s.calls (ftruncate t))) (sym open_fd) ∙ ap is_ok e;
                    printed =
                        ap (λ t. is_ok (system (ftruncate t ∷ s.calls) (snprintf pid)))
                          (sym open_fd)
                        ∙ ap is_ok f;
                    written =
                        ap
                          (λ t.
                            is_ok (system (snprintf pid ∷ ftruncate t ∷ s.calls) (write_pid t pid)))
                          (sym open_fd)
                        ∙ ap is_ok g;
                  })
          ]
        ]
      ]

  -- The claim goes on with the file open and locked.
  from_locked :
      (fd : ℕ) (s : Freon) (r r' : Bool × Freon)
      → s.lockfd ≡ none
      → system (mkdir ∷ s.calls) open_lock ≡ some fd
      → is_ok (system (open_lock ∷ mkdir ∷ s.calls) (flock (some fd))) ≡ true
      → r' ≡ r
      → Claims system pid
          (record s { lockfd = some fd; calls = flock (some fd) ∷ open_lock ∷ mkdir ∷ s.calls })
          r
      → Claims system pid s r'
  from_locked fd s r r' closed opened locked run (failed s' e o h) =
      failed s' (run ∙ e) o (ap (λ t. not (is_ok t) || is_ok s'.lockfd) closed)
  from_locked fd s r r' closed opened locked run (renewed fd' s' same e l c n) =
      let e' : fd' ≡ fd = ap (λ o. elim o [ none ↦ 0 | some x ↦ x ]) (sym same) in
      taken fd s' closed (run ∙ e) (l ∙ ap some e')
        (c ∙ ap (λ x. noted x pid (flock (some fd) ∷ open_lock ∷ mkdir ∷ s.calls)) e') opened locked
        (subst (λ x. Notes system x pid (flock (some fd) ∷ open_lock ∷ mkdir ∷ s.calls)) e' n)
  from_locked fd s r r' closed opened locked run (taken fd' s' shut e l c o k n) =
      absurd (ground (arith, shut))

  take_lock-Claims : (s : Freon) → s.lockfd ≡ none → Claims system pid s (take_lock system pid s)
  unfolding take_lock
  take_lock-Claims s closed =
      let s1 = after mkdir s in
      let unheld : (b : Bool) → (not (is_ok s.lockfd) || b) ≡ true =
        λ b. ap (λ t. not (is_ok t) || b) closed in
      elim (Option-cases (answer_of system open_lock s1)) [
        | inl e ↦ failed (after open_lock s1) (rw (e, take_lock) refl) refl (unheld _)
        | inr (fd, e) ↦
            let s2 : Freon = record s1 { lockfd = some fd; calls = open_lock ∷ s1.calls } in
            elim (Option-cases (answer_of system (flock (some fd)) s2)) [
              | inl f ↦
                  failed (after (flock (some fd)) s2) (rw (e, f, take_lock) refl) refl (unheld _)
              | inr (_, f) ↦
                  from_locked fd s _ _ closed e (ap is_ok f) (rw (e, f, take_lock) refl)
                    (note_owner-Claims fd (after (flock (some fd)) s2) refl)
            ]
      ]

  unheld_run :
      (s : Freon)
      → s.lockfd ≡ none
      → (pid == 0) ≡ false
      → set_display_lock system pid s ≡ take_lock system pid s
  unfolding set_display_lock
  unheld_run s closed nonzero = rw (closed, nonzero) refl

  held_run :
      (s : Freon) (fd : ℕ)
      → s.lockfd ≡ some fd
      → set_display_lock system pid s ≡ note_owner system pid s
  unfolding set_display_lock
  held_run s fd open_fd = rw open_fd refl

  -- Whatever the system answers, a claim of the display lock for a pid other than 0 ends in one of
  -- three ways, and Chromium OS is told nothing. It fails, and then a lock file that was open stays
  -- open. It returns 0 after the calls of ftruncate, snprintf and write, each with success, for the
  -- lock file that was open. Or it returns 0 after mkdir, open and flock with success, and these three
  -- calls with success for the file that open gave.
  pub set_display_lock-Claims : (s : Freon) → Claims system pid s (set_display_lock system pid s)
  unfolding set_display_lock
  set_display_lock-Claims s = elim (Option-cases s.lockfd) [
    | inl closed ↦
        let nonzero : (pid == 0) ≡ false = ground arith in
        rw (unheld_run s closed nonzero) (take_lock-Claims s closed)
    | inr (fd, open_fd) ↦ rw (held_run s fd open_fd) (note_owner-Claims fd s open_fd)
  ]
