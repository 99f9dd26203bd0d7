-- ===== src/Relay/State.antt =====
-- The globals of src/websocket.c on top of those of src/websocket.h, and the answers of the kernel.
use chroagh.Base.{ℕ, Bool, Option, List, ◌∷◌, Outcome, M, done, exited, aborted, fault, out_of_fuel}
use chroagh.WebSocket.State.{World, closed}
use chroagh.Popen.{Child}

pub data PipeName : Type 0 where
  pipe_in : PipeName
  pipe_out : PipeName

-- What comes of an attempt to open a pipe: `open` fails, or the flag O_NONBLOCK cannot be cleared, or
-- all is well.
pub data Opening : Type 0 where
  absent : Opening
  stuck : ℕ → Opening
  opens_as : ℕ → Opening

-- A descriptor of a pipe that `open` returned, or that `close` got.
pub data PipeCall : Type 0 where
  pipe_opened : PipeName → ℕ → PipeCall
  pipe_closed : PipeName → ℕ → PipeCall

-- A descriptor is `none` where the source has -1. `openings` has the coming attempts for each pipe,
-- `children` the coming runs of `popen2`, `forks` whether the coming forks succeed; `launched` has
-- the parameters of the commands started in the background, the newest first, and
-- `pipes` what was done to the pipes.
pub record Relay : Type 0 where
  pub world : World
  pub pipein_fd : Option ℕ
  pub pipeout_fd : Option ℕ
  pub openings : PipeName → List Opening
  pub children : List Child
  pub forks : List Bool
  pub launched : List (List ℕ)
  pub pipes : List PipeCall

-- A routine of src/websocket.h.
abbrev pub on_world : {A : Type 0} → Relay → Outcome (A × World) → Outcome (A × Relay)
on_world s (done (a, w)) = done (a, record s { world = w })
on_world s (exited n) = exited n
on_world s aborted = aborted
on_world s fault = fault
on_world s out_of_fuel = out_of_fuel

abbrev pub lift : {A : Type 0} → M World A → M Relay A
lift m s = on_world s (m s.world)

-- `close(fd)`, of a pipe
abbrev pub close_fd : PipeName → ℕ → Relay → Relay
close_fd name fd s = record s {
  world = record s.world { trace = closed fd ∷ s.world.trace };
  pipes = pipe_closed name fd ∷ s.pipes;
}

-- What is left after an `open` that returned `fd`.
abbrev pub open_fd : PipeName → ℕ → Relay → Relay
open_fd name fd s = record s { pipes = pipe_opened name fd ∷ s.pipes }

abbrev pub next_openings :
    PipeName → List Opening → (PipeName → List Opening) → PipeName → List Opening
next_openings pipe_in rest f pipe_in = rest
next_openings pipe_in rest f pipe_out = f pipe_out
next_openings pipe_out rest f pipe_in = f pipe_in
next_openings pipe_out rest f pipe_out = rest
