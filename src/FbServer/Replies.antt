-- ===== src/FbServer/Replies.antt =====
-- Small replies of src/fbserver.c: `write_init` and `change_resolution`.
pub mod Sending
use chroagh.Base.{
  ℕ, ◌+◌, ◌-◌, ◌/◌, ◌%◌, ◌==◌, ltb, not, ◌&&◌, ◌||◌, if◌then◌else◌, Bool, true, false, Option, none,
  some, List, [], ◌∷◌, ◌++◌, length, take, replicate, Outcome, M, done, exited, aborted, fault,
  out_of_fuel, ◌>>=◌,
}
use chroagh.WebSocket.State.{World}
use chroagh.WebSocket.Constants.{framemaxheadersize, opcode_binary}
use chroagh.WebSocket.Send.{socket_client_write_frame}
use chroagh.WebSocket.Message.{c_string}
use chroagh.WebSocket.Accept.{Hub, in_world, run_command}
use chroagh.Popen.{Answer, output, minus}

-- A reply in one binary frame; the result is ignored.
unfoldable pub send_binary : List ℕ → M World (Unit {0})
send_binary reply =
    socket_client_write_frame (replicate framemaxheadersize 0 ++ reply) (length reply) opcode_binary
      true
    >>= λ _ w. done (tt, w)

-- What `access` finds for the file of the active terminal.
pub data Access : Type 0 where
  there : Access
  not_there : Access
  unknown : Access

unfoldable pub write_init : Access → M World (Unit {0})
write_init there = send_binary (b'I' ∷ 0 ∷ [])
write_init not_there = send_binary (b'I' ∷ 1 ∷ [])
write_init unknown = λ w. aborted

-- `strchr`, with a cut there: the bytes before the first `c`, and those after it if it is there.
abbrev pub cut_at : ℕ → List ℕ → List ℕ × Option (List ℕ)
cut_at c [] = ([], none)
cut_at c (b ∷ bs) = let rest = cut_at c bs in if b == c then ([], some bs) else (b ∷ rest.0, rest.1)

-- `*endptr`: the next byte, 0 at the end.
abbrev pub next_of : List ℕ → ℕ
next_of [] = 0
next_of (b ∷ bs) = b

-- `strtol` is an argument: the number, as an unsigned one, and what is left, or `none` if nothing was
-- read. The number is
-- taken modulo 2 ^ 16 by the assignment to the reply.
abbrev pub width_of : Option (ℕ × List ℕ) → Option ℕ
width_of none = none
width_of (some (n, left)) = if next_of left == 0 then some (n % 65536) else none

abbrev pub height_of : Option (ℕ × List ℕ) → Option ℕ
height_of none = none
height_of (some (n, left)) =
    if next_of left == 0 || next_of left == b'\n' then some (n % 65536) else none

abbrev pub size_reply : Option ℕ → Option ℕ → Option (List ℕ)
size_reply none h = none
size_reply (some w) none = none
size_reply (some w) (some h) = some (b'R' ∷ w % 256 ∷ w / 256 ∷ h % 256 ∷ h / 256 ∷ [])

abbrev pub sizes : (List ℕ → Option (ℕ × List ℕ)) → List ℕ × Option (List ℕ) → Option (List ℕ)
sizes strtol (width, none) = none
sizes strtol (width, some height) = size_reply (width_of (strtol width)) (height_of (strtol height))

-- The parse of the answer of setres; `none` is a failed assertion.
abbrev pub parse_answer : (List ℕ → Option (ℕ × List ℕ)) → Answer → Option (List ℕ)
parse_answer strtol (minus n) = none
parse_answer strtol (output bytes) =
    if length bytes == 0
    then none
    else sizes strtol (cut_at b'x' (cut_at b'_' (c_string (take 255 bytes))).0)

abbrev pub after_answer : Option (List ℕ) → M Hub (Unit {0})
after_answer none s = aborted
after_answer (some reply) s = in_world (send_binary reply) s

-- The arguments of setres, which are the numbers asked for, do not matter to what follows.
unfoldable pub change_resolution : (List ℕ → Option (ℕ × List ℕ)) → M Hub (Unit {0})
change_resolution strtol = run_command [] 256 >>= λ a. after_answer (parse_answer strtol a)
