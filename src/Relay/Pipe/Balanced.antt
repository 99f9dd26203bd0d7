-- ===== src/Relay/Pipe/Balanced.antt =====
-- The descriptors of the pipe for the answers.
use chroagh.Base.{
  ℕ, zero, suc, ◌≡◌, ◌==◌, ◌&&◌, if◌then◌else◌, refl, inl, inr, Bool, true, false, Bool-cases,
  Option, Option-cases, none, some, List, [], ◌∷◌, length, arith, M, done, exited, Ensures,
  Ensures-bind, ◌>>=◌,
}
use chroagh.WebSocket.State.{World, block_write}
use chroagh.WebSocket.Send.{is_all}
use chroagh.Relay.State.{
  PipeName, pipe_in, pipe_out, PipeCall, pipe_opened, pipe_closed, Opening, absent, stuck, opens_as,
  Relay, close_fd,
}
use chroagh.Relay.Pipe.{
  Opened, fd, cannot_open, cannot_clear, attempt, pipe_open_block, open_loop, pipeout_open,
  pipeout_tries, pipeout_close, after_write, pipeout_write, pipeout_error, flush_loop, flush_close,
  use_opened, open_pipein, pipein_reopen,
}

abbrev is_out : PipeName → Bool
is_out pipe_in = false
is_out pipe_out = true

-- How often `open` returned the descriptor for the pipe for the answers, and how often it was closed.
abbrev pub opens : ℕ → List PipeCall → ℕ
opens n [] = 0
opens n (pipe_opened name m ∷ cs) = if is_out name && (m == n) then suc (opens n cs) else opens n cs
opens n (pipe_closed name m ∷ cs) = opens n cs

abbrev pub closes : ℕ → List PipeCall → ℕ
closes n [] = 0
closes n (pipe_opened name m ∷ cs) = closes n cs
closes n (pipe_closed name m ∷ cs) =
    if is_out name && (m == n) then suc (closes n cs) else closes n cs

-- One more for the descriptor that is kept.
abbrev pub left : ℕ → Option ℕ → ℕ → ℕ
left n none c = c
left n (some m) c = if m == n then suc c else c

-- Every descriptor opened was closed, but for the one that is kept.
abbrev pub Tidy : Option ℕ → List PipeCall → Type 0
Tidy o cs = (n : ℕ) → opens n cs ≡ left n o (closes n cs)

-- None is kept, and every one opened was closed.
abbrev pub Free : Option ℕ → List PipeCall → Type 0
Free o cs = (o ≡ none) × ((n : ℕ) → opens n cs ≡ closes n cs)

abbrev pub IsTidy : {A : Type 0} → A → Relay → Type 0
IsTidy _ s = Tidy s.pipeout_fd s.pipes

abbrev pub IsFree : {A : Type 0} → A → Relay → Type 0
IsFree _ s = Free s.pipeout_fd s.pipes

Free→Tidy : (o : Option ℕ) (cs : List PipeCall) → Free o cs → Tidy o cs
Free→Tidy none cs h = h.1
Free→Tidy (some n) cs h = absurd (ground (arith, h.0))

-- An attempt of the loop of `pipeout_open`.
open_next :
    (retry : M Relay Bool) (os : List Opening) (s : Relay)
    → ((t : Relay) → Free t.pipeout_fd t.pipes → Ensures IsTidy (retry t))
    → Free s.pipeout_fd s.pipes
    → Ensures IsTidy (
        let (o, s1) = attempt pipe_out os s in
        elim o [
          | fd n ↦ done (true, record s1 { pipeout_fd = some n })
          | cannot_clear ↦ exited 1
          | cannot_open ↦ retry (record s1 { pipeout_fd = none })
        ])
open_next retry [] s rest h = rest (record s { pipeout_fd = none }) (refl, h.1)
open_next retry (absent ∷ os) s rest h = rest _ (refl, h.1)
open_next retry (stuck m ∷ os) s rest h = tt
open_next retry (opens_as m ∷ os) s rest h = λ n. ground (arith, h.1 n)

open_loop-Tidy :
    (tries : ℕ) (s : Relay) → Free s.pipeout_fd s.pipes → Ensures IsTidy (open_loop tries s)
unfolding open_loop pipe_open_block
open_loop-Tidy zero s h = Free→Tidy s.pipeout_fd s.pipes h
open_loop-Tidy (suc tries) s h =
    open_next (open_loop tries) (s.openings pipe_out) s (open_loop-Tidy tries) h

pub pipeout_open-Tidy : (s : Relay) → Free s.pipeout_fd s.pipes → Ensures IsTidy (pipeout_open s)
unfolding pipeout_open
pipeout_open-Tidy s h = open_loop-Tidy pipeout_tries s h

-- A close of the descriptor that is kept.
shut_lem :
    (n : ℕ) (cs : List PipeCall)
    → Tidy (some n) cs
    → (m : ℕ) → opens m cs ≡ closes m (pipe_closed pipe_out n ∷ cs)
shut_lem n cs h m = h m

pub pipeout_close-Free : (s : Relay) → Tidy s.pipeout_fd s.pipes → Ensures IsFree (pipeout_close s)
unfolding pipeout_close
pipeout_close-Free s h = close_at s.pipeout_fd refl h
  where
    close_at :
        (o : Option ℕ)
        → s.pipeout_fd ≡ o
        → Tidy o s.pipes
        → Ensures IsFree (elim o [
          | none ↦ done (tt, s)
          | some n ↦ done (tt, record (close_fd pipe_out n s) { pipeout_fd = none })
        ])
    close_at none e k = (e, k)
    close_at (some n) e k = (refl, shut_lem n s.pipes k)

after_write-Tidy :
    (buffer : List ℕ) (s : Relay) (r : Option ℕ × World)
    → Tidy s.pipeout_fd s.pipes
    → Tidy (after_write buffer s r).pipeout_fd (after_write buffer s r).pipes
after_write-Tidy buffer s r h = elim (Bool-cases (is_all r.0 (length buffer))) [
  | inl all ↦ rw all h
  | inr part ↦ elim (Option-cases s.pipeout_fd) [
    | inl e ↦ rw (part, e) h
    | inr (p, e) ↦ rw (part, e) (shut_lem p s.pipes (rw e at h))
  ]
]

pub pipeout_write-Tidy :
    (buffer : List ℕ) (s : Relay)
    → Tidy s.pipeout_fd s.pipes
    → Ensures IsTidy (pipeout_write buffer s)
unfolding pipeout_write
pipeout_write-Tidy buffer s h = elim (Option-cases s.pipeout_fd) [
  | inl e ↦ rw (e, pipeout_write) h
  | inr (n, e) ↦
      rw (e, pipeout_write) (after_write-Tidy buffer s (block_write (some n) buffer s.world) h)
]

pub pipeout_error-Free :
    (str : List ℕ) (s : Relay) → Free s.pipeout_fd s.pipes → Ensures IsFree (pipeout_error str s)
unfolding pipeout_error
pipeout_error-Free str s h =
    Ensures-bind IsTidy IsFree (λ _. pipeout_write str >>= λ _. pipeout_close) pipeout_open s
      (pipeout_open-Tidy s h)
      λ _ s1 k.
        Ensures-bind IsTidy IsFree (λ _. pipeout_close) (pipeout_write str) s1
          (pipeout_write-Tidy str s1 k) λ _ s2 k'. pipeout_close-Free s2 k'

-- The other pipe.
flush_close-Free :
    (fuel : ℕ) (s : Relay) → Free s.pipeout_fd s.pipes → Ensures IsFree (flush_close fuel s)
unfolding flush_close
flush_close-Free fuel s h = elim (Option-cases s.pipein_fd) [
  | inl e ↦ rw (e, flush_close) h
  | inr (n, e) ↦ elim (Option-cases (flush_loop fuel (s.world.incoming n))) [
    | inl f ↦ rw (e, flush_close) (rw f tt)
    | inr (rest, f) ↦ rw (e, flush_close) (rw f h)
  ]
]

use_opened-Free :
    (o : Opened) (s : Relay) → Free s.pipeout_fd s.pipes → Ensures IsFree (use_opened o s)
use_opened-Free (fd n) s h = h
use_opened-Free cannot_open s h = tt
use_opened-Free cannot_clear s h = tt

attempt-Free :
    (os : List Opening) (s : Relay)
    → Free s.pipeout_fd s.pipes
    → Free (attempt pipe_in os s).1.pipeout_fd (attempt pipe_in os s).1.pipes
attempt-Free [] s h = h
attempt-Free (absent ∷ rest) s h = h
attempt-Free (stuck n ∷ rest) s h = h
attempt-Free (opens_as n ∷ rest) s h = h

open_pipein-Free : (s : Relay) → Free s.pipeout_fd s.pipes → Ensures IsFree (open_pipein s)
unfolding open_pipein pipe_open_block
open_pipein-Free s h =
    let (o, t) = attempt pipe_in (s.openings pipe_in) s in
    use_opened-Free o t (attempt-Free (s.openings pipe_in) s h)

pub pipein_reopen-Free :
    (fuel : ℕ) (s : Relay) → Free s.pipeout_fd s.pipes → Ensures IsFree (pipein_reopen fuel s)
unfolding pipein_reopen
pipein_reopen-Free fuel s h =
    Ensures-bind IsFree IsFree (λ _. open_pipein) (flush_close fuel) s (flush_close-Free fuel s h)
      λ _ t k. open_pipein-Free t k
