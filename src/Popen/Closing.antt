-- ===== src/Popen/Closing.antt =====
-- How `popen2` ends after the fork.
use chroagh.Base.{
  ℕ, ◌≤◌, ◌<◌, ◌≡◌, ◌==◌, ==_iff, refl, sym, ap, ◌∙◌, inl, inr, ◌⊎◌, Bool-cases, if◌then◌else◌,
  true, false, Option, none, some, List, ◌∷◌, arith, length, take, take_all, length-take, Outcome,
  done, out_of_fuel,
}
use chroagh.Popen.{
  Status, wait_error, exited, signalled, Child, Act, close_stdin, close_stdout, wait, Talking,
  Answer, output, minus, poll_loop, verdict, finish, initial, popen2,
}
use chroagh.Popen.Turns.{
  Inv, blocked, broke, erred, poll_loop-Ends, stdin_closes, stdout_closes, begun, sent, still_open,
}

-- Bytes are returned only if they fit, all input was sent and the child ended well; other results
-- are negative.
abbrev pub IsEarned : List ℕ → ℕ → Status → List Act → Answer → Type 0
IsEarned input outlen status acts (output bytes) =
    (length bytes ≤ outlen) × (sent acts ≡ input) × (status ≡ exited 0)
IsEarned input outlen status acts (minus n) = 0 < n

-- How a call with a child ends, if it does.
pub data Reaps (input : List ℕ) (outlen : ℕ) (status : Status) (r : Outcome (Answer × List Act))
    : Type 0 where
  never_returns : r ≡ out_of_fuel → Reaps input outlen status r
  reaped :
      (a : Answer) (acts : List Act)
      → r ≡ done (a, wait ∷ close_stdout ∷ acts)
      → stdin_closes acts ≡ 1
      → stdout_closes acts ≡ 0
      → begun acts ≡ true
      → sent acts ≡ take (length (sent acts)) input
      → IsEarned input outlen status acts a
      → Reaps input outlen status r

module _ (input : List ℕ) (outlen : ℕ) where
  acts_of : Talking → List Act
  acts_of s = if s.stdin_open then close_stdin ∷ s.acts else s.acts

  acts_of_open : (s : Talking) → s.stdin_open ≡ true → acts_of s ≡ close_stdin ∷ s.acts
  unfolding acts_of
  acts_of_open s e = rw e refl

  acts_of_shut : (s : Talking) → s.stdin_open ≡ false → acts_of s ≡ s.acts
  unfolding acts_of
  acts_of_shut s e = rw e refl

  record Shut (s : Talking) : Type 0 where
    closes : stdin_closes (acts_of s) ≡ 1
    kept : stdout_closes (acts_of s) ≡ 0
    first : begun (acts_of s) ≡ true
    prefix : sent (acts_of s) ≡ take s.writelen input

  shut : (s : Talking) → Inv input outlen s → Shut s
  shut s h = elim (Bool-cases s.stdin_open) [
    | inl e ↦ record {
      closes = ap stdin_closes (acts_of_open s e) ∙ omega (arith, h.once, ap still_open e);
      kept = ap stdout_closes (acts_of_open s e) ∙ h.never;
      first = ap begun (acts_of_open s e) ∙ h.first;
      prefix = ap sent (acts_of_open s e) ∙ h.prefix;
    }
    | inr e ↦ record {
      closes = ap stdin_closes (acts_of_shut s e) ∙ omega (arith, h.once, ap still_open e);
      kept = ap stdout_closes (acts_of_shut s e) ∙ h.never;
      first = ap begun (acts_of_shut s e) ∙ h.first;
      prefix = ap sent (acts_of_shut s e) ∙ h.prefix;
    }
  ]

  all_sent :
      (s : Talking)
      → Inv input outlen s
      → (s.writelen == length input) ≡ true
      → sent (acts_of s) ≡ input
  all_sent s h e =
      (shut s h).prefix
      ∙ take_all s.writelen input (omega (arith, (==_iff s.writelen (length input)).0 e))

  earned :
      (status : Status) (read : Option (List ℕ)) (s : Talking)
      → Inv input outlen s
      → (read ≡ none) ⊎ (read ≡ some s.output)
      → IsEarned input outlen status (acts_of s) (verdict status (length input) read s)
  earned wait_error read s h e = omega arith
  earned signalled read s h e = omega arith
  earned (exited n) read s h e = elim (Bool-cases (n == 0)) [
    | inr bad ↦ rw bad (ground arith)
    | inl ok ↦ elim (Bool-cases (s.writelen == length input)) [
      | inr short ↦ rw (ok, short) (omega arith)
      | inl all ↦ elim e [
        | inl a ↦ rw (ok, all, a) (omega arith)
        | inr a ↦ rw (ok, all, a) (h.fits, all_sent s h all, ap exited ((==_iff n 0).0 ok))
      ]
    ]
  ]

  ended :
      (status : Status) (read : Option (List ℕ)) (s : Talking) (r : Outcome (Answer × List Act))
      → Inv input outlen s
      → (read ≡ none) ⊎ (read ≡ some s.output)
      → r ≡ done (verdict status (length input) read s, wait ∷ close_stdout ∷ acts_of s)
      → Reaps input outlen status r
  ended status read s r h e run =
      let c = shut s h in
      let sent_len : length (sent (acts_of s)) ≡ s.writelen =
        ap length c.prefix ∙ omega (arith, h.within, length-take s.writelen input) in
      reaped (verdict status (length input) read s) (acts_of s) run c.closes c.kept c.first
        (c.prefix ∙ ap (λ n. take n input) (sym sent_len)) (earned status read s h e)

  -- Once the child runs, whatever it does and whatever the kernel answers, and unless `poll` never
  -- returns again: the child's ends of both pipes are closed first, and once, each of the parent's
  -- own ends is closed once, and the child is waited for last; what it got is the input up to some
  -- point, and bytes are returned only if they fit, all input was sent and the child exited with
  -- status 0; every other result is negative.
  pub popen2-Reaps :
      (child : Child)
      → child.piped ≡ true
      → child.forked ≡ true
      → Reaps input outlen child.status (popen2 child input outlen)
  unfolding popen2 acts_of
  popen2-Reaps child p f =
      let start : Inv input outlen initial = record {
        once = refl;
        never = refl;
        first = refl;
        prefix = refl;
        within = omega arith;
        fits = omega arith;
      } in
      let run : popen2 child input outlen
          ≡ finish child.status (length input) (poll_loop input outlen child.polls initial) =
        rw (p, f) refl in
      elim (poll_loop-Ends input outlen child.polls initial start) [
        | blocked e ↦ never_returns (run ∙ rw e refl)
        | broke s e h ↦ ended child.status (some s.output) s _ h (inr refl) (run ∙ rw e refl)
        | erred s e h ↦ ended child.status none s _ h (inl refl) (run ∙ rw e refl)
      ]
