-- ===== src/Popen/Turns.antt =====
-- What holds between two polls of `popen2`.
use chroagh.Base.{
  ℕ, zero, suc, ◌+◌, ◌-◌, ◌≤◌, ◌≡◌, ◌==◌, ◌&&◌, ◌||◌, leb, ltb, refl, sym, ap, ◌∙◌, inl, inr,
  Bool-cases, Option-cases, if◌then◌else◌, not, min, Bool, true, false, Option, none, some, List,
  [], ◌∷◌, ◌++◌, arith, length, take, drop, length-append, length-take, Outcome, done, out_of_fuel,
}
use chroagh.Popen.{
  Ready, Act, to_child, close_child_stdin, close_child_stdout, close_stdin, close_stdout, wait,
  Talking, Turn, goes_on, breaks, errs, close_written, feed, hang_up, drain, turn, poll_loop,
}

abbrev pub stdin_closes : List Act → ℕ
stdin_closes [] = 0
stdin_closes (close_child_stdin ∷ as') = stdin_closes as'
stdin_closes (close_child_stdout ∷ as') = stdin_closes as'
stdin_closes (close_stdin ∷ as') = 1 + stdin_closes as'
stdin_closes (to_child b ∷ as') = stdin_closes as'
stdin_closes (close_stdout ∷ as') = stdin_closes as'
stdin_closes (wait ∷ as') = stdin_closes as'

-- Closing the pipe from the child, and waiting for it.
abbrev pub stdout_closes : List Act → ℕ
stdout_closes [] = 0
stdout_closes (close_child_stdin ∷ as') = stdout_closes as'
stdout_closes (close_child_stdout ∷ as') = stdout_closes as'
stdout_closes (close_stdout ∷ as') = 1 + stdout_closes as'
stdout_closes (close_stdin ∷ as') = stdout_closes as'
stdout_closes (to_child b ∷ as') = stdout_closes as'
stdout_closes (wait ∷ as') = stdout_closes as'

-- What the child got.
abbrev pub sent : List Act → List ℕ
sent [] = []
sent (close_child_stdin ∷ as') = sent as'
sent (close_child_stdout ∷ as') = sent as'
sent (to_child b ∷ as') = sent as' ++ b
sent (close_stdin ∷ as') = sent as'
sent (close_stdout ∷ as') = sent as'
sent (wait ∷ as') = sent as'

abbrev is_first : List Act → Bool
is_first (close_child_stdin ∷ []) = true
is_first _ = false

-- The ends of the child are closed before everything else, and once.
abbrev pub begun : List Act → Bool
begun [] = false
begun (close_child_stdin ∷ as') = false
begun (close_child_stdout ∷ as') = is_first as'
begun (to_child b ∷ as') = begun as'
begun (close_stdin ∷ as') = begun as'
begun (close_stdout ∷ as') = begun as'
begun (wait ∷ as') = begun as'

abbrev pub still_open : Bool → ℕ
still_open b = if b then 1 else 0

take-nil : (n : ℕ) → take {A = ℕ} n [] ≡ []
take-nil zero = refl
take-nil (suc n) = refl

take_more : (n m : ℕ) (xs : List ℕ) → take n xs ++ take m (drop n xs) ≡ take (n + m) xs
take_more zero m xs = ap (λ t. take t xs) (omega arith)
take_more (suc n) m [] = ap (λ t. [] ++ t) (take-nil m) ∙ sym (take-nil (suc n + m))
take_more (suc n) m (x ∷ xs) =
    let e : suc (n + m) ≡ suc n + m = omega arith in
    ap (λ t. x ∷ t) (take_more n m xs) ∙ ap (λ t. take t (x ∷ xs)) e

-- What holds between two polls.
pub record Inv (input : List ℕ) (outlen : ℕ) (s : Talking) : Type 0 where
  pub once : stdin_closes s.acts + still_open s.stdin_open ≡ 1
  pub never : stdout_closes s.acts ≡ 0
  pub first : begun s.acts ≡ true
  pub prefix : sent s.acts ≡ take s.writelen input
  pub within : s.writelen ≤ length input
  pub fits : length s.output ≤ outlen

abbrev TurnInv : List ℕ → ℕ → Turn → Type 0
TurnInv input outlen (goes_on s) = Inv input outlen s
TurnInv input outlen (breaks s) = Inv input outlen s
TurnInv input outlen (errs s) = Inv input outlen s

module _ (input : List ℕ) (outlen : ℕ) where
  close_written-Inv :
      (s : Talking)
      → s.stdin_open ≡ true
      → Inv input outlen s
      → Inv input outlen (close_written (length input) s)
  close_written-Inv s o h = elim (Bool-cases (s.writelen == length input)) [
    | inr more ↦ rw more h
    | inl all ↦ rw all (record {
      once = omega (arith, h.once, ap still_open o);
      never = h.never;
      first = h.first;
      prefix = h.prefix;
      within = h.within;
      fits = h.fits;
    })
  ]

  hang_up-Inv : (r : Ready) (s : Talking) → Inv input outlen s → TurnInv input outlen (hang_up r s)
  hang_up-Inv r s h = elim (Bool-cases (r.pollhup && not r.in_other)) [
    | inl a ↦ rw a h
    | inr a ↦ elim (Bool-cases (r.pollhup || r.in_other)) [
      | inl b ↦ rw (a, b) h
      | inr b ↦ rw (a, b) h
    ]
  ]

  abbrev fed : ℕ → Talking → Talking
  fed k s = record s {
    writelen = s.writelen + min k (length input - s.writelen);
    acts = to_child (take (min k (length input - s.writelen)) (drop s.writelen input)) ∷ s.acts;
  }

  fed-Inv : (k : ℕ) (s : Talking) → Inv input outlen s → Inv input outlen (fed k s)
  fed-Inv k s h =
      let n = min k (length input - s.writelen) in
      record {
        once = h.once;
        never = h.never;
        first = h.first;
        prefix =
            ap (λ t. t ++ take n (drop s.writelen input)) h.prefix ∙ take_more s.writelen n input;
        within = omega (arith, h.within);
        fits = h.fits;
      }

  -- What `feed` does, by cases.
  data Feeds (s : Talking) (t : Turn) : Type 0 where
    idle : t ≡ goes_on s → Feeds s t
    broken : t ≡ errs s → Feeds s t
    full : s.stdin_open ≡ true → t ≡ goes_on (close_written (length input) s) → Feeds s t
    wrote :
        (k : ℕ)
        → s.stdin_open ≡ true
        → t ≡ goes_on (close_written (length input) (fed k s))
        → Feeds s t

  feed-Feeds : (r : Ready) (s : Talking) → Feeds s (feed input r s)
  unfolding feed
  feed-Feeds r s = elim (Bool-cases (s.stdin_open && r.pollout)) [
    | inr not_ready ↦ idle (rw (not_ready, feed) refl)
    | inl ready ↦
        let o : s.stdin_open ≡ true = ground arith in
        elim (Bool-cases (ltb s.writelen (length input))) [
          | inr all ↦ full o (rw (ready, all, feed) refl)
          | inl more ↦ elim (Option-cases r.taken) [
            | inl e ↦ broken (rw (ready, more, e, feed) refl)
            | inr (k, e) ↦ wrote k o (rw (ready, more, e, feed) refl)
          ]
        ]
  ]

  feed-Inv : (r : Ready) (s : Talking) → Inv input outlen s → TurnInv input outlen (feed input r s)
  feed-Inv r s h = elim (feed-Feeds r s) [
    | idle e ↦ rw e h
    | broken e ↦ rw e h
    | full o e ↦ rw e (close_written-Inv s o h)
    | wrote k o e ↦ rw e (close_written-Inv (fed k s) o (fed-Inv k s h))
  ]

  read_on : List ℕ → Talking → Talking
  read_on bytes s = record s { output = s.output ++ take (outlen - length s.output) bytes }

  read_on-Inv :
      (bytes : List ℕ) (s : Talking) → Inv input outlen s → Inv input outlen (read_on bytes s)
  unfolding read_on
  read_on-Inv bytes s h = record {
    once = h.once;
    never = h.never;
    first = h.first;
    prefix = h.prefix;
    within = h.within;
    fits =
        let more = take (outlen - length s.output) bytes in
        omega (
          arith,
          h.fits,
          length-append s.output more,
          length-take (outlen - length s.output) bytes,
        );
  }

  -- And `drain`.
  data Drains (r : Ready) (s : Talking) (t : Turn) : Type 0 where
    nothing : t ≡ hang_up r s → Drains r s t
    failed : t ≡ errs s → Drains r s t
    too_long : (bytes : List ℕ) → t ≡ breaks (read_on bytes s) → Drains r s t
    some_read : (bytes : List ℕ) → t ≡ hang_up r (read_on bytes s) → Drains r s t

  drain-Drains : (r : Ready) (s : Talking) → Drains r s (drain outlen r s)
  unfolding drain read_on
  drain-Drains r s = elim (Bool-cases r.pollin) [
    | inr dry ↦ nothing (rw (dry, drain) refl)
    | inl wet ↦ elim (Option-cases r.got) [
      | inl e ↦ failed (rw (wet, e, drain) refl)
      | inr (bytes, e) ↦
          elim (Bool-cases
            (leb outlen (length (s.output ++ take (outlen - length s.output) bytes)))) [
              | inl long ↦ too_long bytes (rw (wet, e, long, drain) refl)
              | inr short ↦ some_read bytes (rw (wet, e, short, drain) refl)
            ]
    ]
  ]

  drain-Inv :
      (r : Ready) (s : Talking) → Inv input outlen s → TurnInv input outlen (drain outlen r s)
  drain-Inv r s h = elim (drain-Drains r s) [
    | nothing e ↦ rw e (hang_up-Inv r s h)
    | failed e ↦ rw e h
    | too_long bytes e ↦ rw e (read_on-Inv bytes s h)
    | some_read bytes e ↦ rw e (hang_up-Inv r (read_on bytes s) (read_on-Inv bytes s h))
  ]

  turn-Inv :
      (r : Ready) (s : Talking) → Inv input outlen s → TurnInv input outlen (turn input outlen r s)
  unfolding turn
  turn-Inv r s h = after_feed (feed input r s) (feed-Inv r s h)
    where
      after_feed :
          (t : Turn)
          → TurnInv input outlen t
          → TurnInv input outlen (elim t [
            | goes_on s1 ↦ if s.stdin_open && r.out_other then errs s1 else drain outlen r s1
            | breaks s1 ↦ breaks s1
            | errs s1 ↦ errs s1
          ])
      after_feed (goes_on s1) k = elim (Bool-cases (s.stdin_open && r.out_other)) [
        | inl b ↦ rw b k
        | inr b ↦ rw b (drain-Inv r s1 k)
      ]
      after_feed (breaks s1) k = k
      after_feed (errs s1) k = k

  -- How the loop ends, if it does.
  pub data Ends (r : Outcome (Option (List ℕ) × Talking)) : Type 0 where
    blocked : r ≡ out_of_fuel → Ends r
    broke : (s : Talking) → r ≡ done (some s.output, s) → Inv input outlen s → Ends r
    erred : (s : Talking) → r ≡ done (none, s) → Inv input outlen s → Ends r

  pub poll_loop-Ends :
      (polls : List (Option Ready)) (s : Talking)
      → Inv input outlen s
      → Ends (poll_loop input outlen polls s)
  unfolding poll_loop
  poll_loop-Ends [] s h = blocked refl
  poll_loop-Ends (none ∷ polls) s h = erred s refl h
  poll_loop-Ends (some r ∷ polls) s h =
      let rest = λ (s1 : Talking) (h1 : Inv input outlen s1). poll_loop-Ends polls s1 h1 in
      after_turn polls (turn input outlen r s) rest (turn-Inv r s h)
    where
      after_turn :
          (polls : List (Option Ready)) (t : Turn)
          → ((s1 : Talking) → Inv input outlen s1 → Ends (poll_loop input outlen polls s1))
          → TurnInv input outlen t
          → Ends (elim t [
            | goes_on s1 ↦ poll_loop input outlen polls s1
            | breaks s1 ↦ done (some s1.output, s1)
            | errs s1 ↦ done (none, s1)
          ])
      after_turn polls (goes_on s1) rest k = rest s1 k
      after_turn polls (breaks s1) rest k = broke s1 refl k
      after_turn polls (errs s1) rest k = erred s1 refl k
