-- ===== src/Popen.antt =====
-- `popen2` of src/websocket.h: a command is run with its standard input and output on pipes. The
-- child and the kernel are an argument: what each `poll`, `write` and `read` of the loop returns, and
-- how the child ends.
pub mod Turns
pub mod Closing
use chroagh.Base.{
  ℕ, ◌+◌, ◌-◌, ◌==◌, ◌&&◌, ◌||◌, leb, ltb, if◌then◌else◌, not, min, Bool, true, false, Option, none,
  some, List, [], ◌∷◌, ◌++◌, length, take, drop, Outcome, done, out_of_fuel,
}

-- One return of `poll`: the bits of the two `revents`, and what a `write` and a `read` then return
-- (`none` is -1). The bits for the pipe to the child mean nothing once it is closed.
pub record Ready : Type 0 where
  pub pollout : Bool
  pub out_other : Bool
  pub taken : Option ℕ
  pub pollin : Bool
  pub pollhup : Bool
  pub in_other : Bool
  pub got : Option (List ℕ)

-- What `waitpid` reports.
pub data Status : Type 0 where
  wait_error : Status
  exited : ℕ → Status
  signalled : Status

-- `none` in `polls` is an error of `poll`.
pub record Child : Type 0 where
  pub piped : Bool
  pub forked : Bool
  pub polls : List (Option Ready)
  pub status : Status

-- What the parent does. `close_child_stdin` and `close_child_stdout` are its closes of the child's
-- ends, `stdin_fd[0]` and `stdout_fd[1]`; the other two are of its own ends.
pub data Act : Type 0 where
  to_child : List ℕ → Act
  close_child_stdin : Act
  close_child_stdout : Act
  close_stdin : Act
  close_stdout : Act
  wait : Act

-- The locals of the loop, and what was done, the newest first. `readlen` is the length of `output`;
-- `stdin_open` is whether `stdin_fd[1]` is not -1.
pub record Talking : Type 0 where
  pub writelen : ℕ
  pub output : List ℕ
  pub stdin_open : Bool
  pub acts : List Act

-- A non-negative result with the bytes read, or minus a number.
pub data Answer : Type 0 where
  output : List ℕ → Answer
  minus : ℕ → Answer

-- How a part of the loop's body ends: it goes on, or it breaks, with `readlen` kept or set to -1.
pub data Turn : Type 0 where
  goes_on : Talking → Turn
  breaks : Talking → Turn
  errs : Talking → Turn

-- Once all input is written, the pipe is closed and not polled any more.
abbrev pub close_written : ℕ → Talking → Talking
close_written inlen s =
    if s.writelen == inlen then record s { stdin_open = false; acts = close_stdin ∷ s.acts } else s

-- `if (fds[1].revents & POLLOUT)`
unfoldable pub feed : List ℕ → Ready → Talking → Turn
feed input r s =
    if s.stdin_open && r.pollout
    then (if ltb s.writelen (length input)
        then elim r.taken [
          | none ↦ errs s
          | some k ↦
              let n = min k (length input - s.writelen) in
              goes_on (
                close_written (length input) (record s {
                  writelen = s.writelen + n;
                  acts = to_child (take n (drop s.writelen input)) ∷ s.acts;
                }))
        ]
        else goes_on (close_written (length input) s))
    else goes_on s

-- The last test of the body.
abbrev pub hang_up : Ready → Talking → Turn
hang_up r s =
    if r.pollhup && not r.in_other
    then breaks s
    else if r.pollhup || r.in_other
    then errs s
    else goes_on s

-- From `if (fds[0].revents & POLLIN)` on.
unfoldable pub drain : ℕ → Ready → Talking → Turn
drain outlen r s =
    if r.pollin
    then elim r.got [
      | none ↦ errs s
      | some bytes ↦
          let read = s.output ++ take (outlen - length s.output) bytes in
          let s1 : Talking = record s { output = read } in
          if leb outlen (length read) then breaks s1 else hang_up r s1
    ]
    else hang_up r s

-- The body after `poll`.
unfoldable pub turn : List ℕ → ℕ → Ready → Talking → Turn
turn input outlen r s = elim (feed input r s) [
  | goes_on s1 ↦ if s.stdin_open && r.out_other then errs s1 else drain outlen r s1
  | breaks s1 ↦ breaks s1
  | errs s1 ↦ errs s1
]

-- The loop; `none` is a `readlen` of -1. A script that ends here would be a `poll` that never
-- returns.
unfoldable pub poll_loop :
    List ℕ → ℕ → List (Option Ready) → Talking → Outcome (Option (List ℕ) × Talking)
poll_loop input outlen [] s = out_of_fuel
poll_loop input outlen (none ∷ polls) s = done (none, s)
poll_loop input outlen (some r ∷ polls) s = elim (turn input outlen r s) [
  | goes_on s1 ↦ poll_loop input outlen polls s1
  | breaks s1 ↦ done (some s1.output, s1)
  | errs s1 ↦ done (none, s1)
]

-- What is done after the loop.
abbrev pub closing : Talking → List Act
closing s = wait ∷ close_stdout ∷ (if s.stdin_open then close_stdin ∷ s.acts else s.acts)

abbrev pub read_result : Option (List ℕ) → Answer
read_result none = minus 1
read_result (some bytes) = output bytes

-- The returned number.
abbrev pub verdict : Status → ℕ → Option (List ℕ) → Talking → Answer
verdict wait_error inlen read s = minus 1
verdict signalled inlen read s = minus 1
verdict (exited n) inlen read s =
    if not (n == 0) then minus n else if s.writelen == inlen then read_result read else minus 1

abbrev pub finish : Status → ℕ → Outcome (Option (List ℕ) × Talking) → Outcome (Answer × List Act)
finish status inlen (done (read, s)) = done (verdict status inlen read s, closing s)
finish status inlen _ = out_of_fuel

-- The child's ends are closed before the loop.
abbrev pub initial : Talking
initial = record {
  writelen = 0;
  output = [];
  stdin_open = true;
  acts = close_child_stdout ∷ close_child_stdin ∷ [];
}

unfoldable pub popen2 : Child → List ℕ → ℕ → Outcome (Answer × List Act)
popen2 child input outlen =
    if not child.piped
    then done (minus 1, [])
    else if not child.forked
    then done (minus 1, [])
    else finish child.status (length input) (poll_loop input outlen child.polls initial)
