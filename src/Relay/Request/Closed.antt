-- ===== src/Relay/Request/Closed.antt =====
-- What a request leaves of the pipe for the answer.
use chroagh.Base.{
  ℕ, zero, suc, ◌+◌, ◌-◌, leb, ltb, not, ◌&&◌, if◌then◌else◌, inl, inr, Bool-cases, Option-cases,
  Bool, true, false, Option, none, some, List, [], ◌∷◌, ◌++◌, length, take, drop, min, replicate, M,
  done, Ensures, Ensures-bind, ◌>>=◌,
}
use chroagh.WebSocket.Constants.{buffersize, framemaxheadersize}
use chroagh.WebSocket.State.{World}
use chroagh.WebSocket.Send.{socket_client_write_frame}
use chroagh.WebSocket.Receive.{
  Header, socket_client_read_frame_header, socket_client_read_frame_data,
}
use chroagh.WebSocket.Message.{socket_client_read_frame}
use chroagh.Relay.State.{Relay, lift}
use chroagh.Relay.Pipe.{pipeout_open, pipeout_close, pipeout_write, pipeout_error, pipein_reopen}
use chroagh.Relay.Pipe.Balanced.{
  Free, Tidy, IsFree, IsTidy, pipeout_open-Tidy, pipeout_close-Free, pipeout_write-Tidy,
  pipeout_error-Free, pipein_reopen-Free,
}
use chroagh.Relay.Unrequested.{socket_client_handle_unrequested, client_close}
use chroagh.Relay.Unrequested.Apart.{
  lift_apart, bind_apart, handle_unrequested_apart, client_close_apart,
}
use chroagh.Relay.Request.{
  not_connected, write_error, Progress, frame_opcode, started, send_packet, read_pipe, give_up,
  after_packet, after_read, after_fin, forward_loop, Step, next_frame, leave, handle_command,
  after_rest, unrequested, is_command, use_data, data_loop, after_frame, after_answer_header,
  answer_loop, finish_request, after_request, pipein_read,
}

abbrev packet_of : Progress → List ℕ → Bool → M World (Option ℕ)
packet_of p payload fin =
    socket_client_write_frame (replicate framemaxheadersize 0 ++ payload) (length payload)
      (frame_opcode p) fin

-- Before the answer, no descriptor is kept.
give_up-Free :
    (fuel : ℕ) (str : List ℕ) (s : Relay)
    → Free s.pipeout_fd s.pipes
    → Ensures IsFree (give_up fuel str s)
unfolding give_up
give_up-Free fuel str s =
    bind_apart Free (pipein_reopen fuel) (λ _. pipeout_error str >>= λ _ s1. done (none, s1)) s
      (pipein_reopen-Free fuel s)
      λ _ s1.
        bind_apart Free (pipeout_error str) (λ _ s2. done (none, s2)) s1 (pipeout_error-Free str s1)
          λ _ s2 k. k

read_pipe-Free : (s : Relay) → Free s.pipeout_fd s.pipes → Ensures IsFree (read_pipe s)
unfolding read_pipe
read_pipe-Free s h = elim (Option-cases s.pipein_fd) [
  | inl e ↦ rw (e, read_pipe) h
  | inr (n, e) ↦ rw (e, read_pipe) h
]

module _ (again : Progress → M Relay (Option Progress))
    (rest : (q : Progress) (t : Relay) → Free t.pipeout_fd t.pipes → Ensures IsFree (again q t))
    (fuel : ℕ) (p : Progress) where
  after_packet-Free :
      (x : ℕ) (n : Option ℕ) (s : Relay)
      → Free s.pipeout_fd s.pipes
      → Ensures IsFree (after_packet again fuel p x n s)
  after_packet-Free x none s = give_up-Free fuel (write_error ++ (b'.' ∷ [])) s
  after_packet-Free x (some _) s = rest (started p x) s

  after_read-Free :
      (r : Option (List ℕ)) (s : Relay)
      → Free s.pipeout_fd s.pipes
      → Ensures IsFree (after_read again fuel p r s)
  after_read-Free none s h = tt
  after_read-Free (some []) s h = h
  after_read-Free (some (x ∷ xs)) s h =
      bind_apart Free (send_packet p (x ∷ xs) false) (after_packet again fuel p x) s
        (lift_apart Free (packet_of p (x ∷ xs) false) s) (after_packet-Free x) h

forward_loop-Free :
    (fuel : ℕ) (p : Progress) (s : Relay)
    → Free s.pipeout_fd s.pipes
    → Ensures IsFree (forward_loop fuel p s)
unfolding forward_loop
forward_loop-Free zero p s h = tt
forward_loop-Free (suc fuel) p s h =
    let rest = λ (q : Progress) (t : Relay). forward_loop-Free fuel q t in
    bind_apart Free read_pipe (after_read (forward_loop fuel) (suc fuel) p) s (read_pipe-Free s)
      (after_read-Free (forward_loop fuel) rest (suc fuel) p) h

-- While the answer comes, at most the one in use.
handle_command-Tidy :
    (buffer : List ℕ) (len : ℕ) (s : Relay)
    → Tidy s.pipeout_fd s.pipes
    → Ensures IsTidy (handle_command buffer len s)
unfolding handle_command
handle_command-Tidy buffer len s h = elim (Bool-cases (leb buffersize len)) [
  | inl e ↦ rw e (
      bind_apart Tidy (client_close true) (λ _ t. done (leave, t)) s
        (client_close_apart Tidy true s) (λ _ t k. k) h)
  | inr e ↦ rw e (
      bind_apart Tidy (socket_client_handle_unrequested buffer len)
        (λ ok t. done ((if ok then next_frame false true buffer else leave), t)) s
        (handle_unrequested_apart Tidy buffer len s) (λ _ t k. k) h)
]

after_rest-Tidy :
    (buffer : List ℕ) (len : ℕ) (r : Option ℕ × List ℕ) (s : Relay)
    → Tidy s.pipeout_fd s.pipes
    → Ensures IsTidy (after_rest buffer len r s)
after_rest-Tidy buffer len (none, out) s h = h
after_rest-Tidy buffer len (some rlen, out) s h =
    handle_command-Tidy (take len buffer ++ out) (len + rlen) s h

unrequested-Tidy :
    (fuel : ℕ) (buffer : List ℕ) (len : ℕ) (fin : Bool) (s : Relay)
    → Tidy s.pipeout_fd s.pipes
    → Ensures IsTidy (unrequested fuel buffer len fin s)
unfolding unrequested
unrequested-Tidy fuel buffer len fin s h = elim (Bool-cases (not fin && ltb len buffersize)) [
  | inr e ↦ rw e (handle_command-Tidy buffer len s h)
  | inl e ↦ rw e (
      bind_apart Tidy (lift (socket_client_read_frame fuel (drop len buffer) (length buffer - len)))
        (after_rest buffer len) s
        (lift_apart Tidy (socket_client_read_frame fuel (drop len buffer) (length buffer - len)) s)
        (after_rest-Tidy buffer len) h)
]

use_data-Tidy :
    (again : ℕ → List ℕ → M Relay Step) (fuel len rlen : ℕ) (fin : Bool) (firstchar : ℕ)
    (first : Bool) (r : Option ℕ × List ℕ) (s : Relay)
    → ((l : ℕ) (b : List ℕ) (t : Relay) → Tidy t.pipeout_fd t.pipes → Ensures IsTidy (again l b t))
    → Tidy s.pipeout_fd s.pipes
    → Ensures IsTidy (use_data again fuel len rlen fin firstchar first r s)
use_data-Tidy again fuel len rlen fin firstchar first (none, buffer) s rest h = h
use_data-Tidy again fuel len rlen fin firstchar first (some n, buffer) s rest h =
    elim (Bool-cases (is_command first firstchar buffer)) [
      | inl e ↦ rw e (unrequested-Tidy fuel buffer len fin s h)
      | inr e ↦ rw e (
          bind_apart Tidy (pipeout_write (take rlen buffer)) (λ _. again (len - rlen) buffer) s
            (pipeout_write-Tidy (take rlen buffer) s) (λ _ t. rest (len - rlen) buffer t) h)
    ]

data_loop-Tidy :
    (rounds fuel : ℕ) (fin : Bool) (maskkey firstchar len : ℕ) (first : Bool) (buffer : List ℕ)
    (s : Relay)
    → Tidy s.pipeout_fd s.pipes
    → Ensures IsTidy (data_loop rounds fuel fin maskkey firstchar len first buffer s)
unfolding data_loop
data_loop-Tidy rounds fuel fin maskkey firstchar zero first buffer s h = h
data_loop-Tidy zero fuel fin maskkey firstchar (suc len) first buffer s h = tt
data_loop-Tidy (suc rounds) fuel fin maskkey firstchar (suc len) first buffer s h =
    let rlen = min (suc len) buffersize in
    let rest = λ (l : ℕ) (b : List ℕ) (t : Relay).
      data_loop-Tidy rounds fuel fin maskkey firstchar l false b t in
    bind_apart Tidy (lift (socket_client_read_frame_data buffer rlen maskkey)) _ s
      (lift_apart Tidy (socket_client_read_frame_data buffer rlen maskkey) s)
      (λ r t. use_data-Tidy _ fuel (suc len) rlen fin firstchar first r t rest) h

module _ (again : Bool → List ℕ → M Relay (Unit {0}))
    (rest : (f : Bool) (b : List ℕ) (t : Relay)
      → Tidy t.pipeout_fd t.pipes
      → Ensures IsTidy (again f b t)) where
  after_frame-Tidy :
      (r : Step) (s : Relay) → Tidy s.pipeout_fd s.pipes → Ensures IsTidy (after_frame again r s)
  after_frame-Tidy leave s h = h
  after_frame-Tidy (next_frame true first buffer) s h = h
  after_frame-Tidy (next_frame false first buffer) s h = rest first buffer s h

  after_answer_header-Tidy :
      (fuel firstchar : ℕ) (first : Bool) (buffer : List ℕ) (x : Header) (s : Relay)
      → Tidy s.pipeout_fd s.pipes
      → Ensures IsTidy (after_answer_header again fuel firstchar first buffer x s)
  after_answer_header-Tidy fuel firstchar first buffer x s h = elim (Bool-cases x.retry) [
    | inl e ↦ rw e (rest first buffer s h)
    | inr e ↦ elim (Option-cases x.len) [
      | inl e' ↦ rw (e, e') h
      | inr (len, e') ↦
          rw (e, e')
            (bind_apart Tidy (data_loop len fuel x.fin x.maskkey firstchar len first buffer)
              (after_frame again) s
              (data_loop-Tidy len fuel x.fin x.maskkey firstchar len first buffer s)
              after_frame-Tidy h)
    ]
  ]

answer_loop-Tidy :
    (fuel firstchar : ℕ) (first : Bool) (buffer : List ℕ) (s : Relay)
    → Tidy s.pipeout_fd s.pipes
    → Ensures IsTidy (answer_loop fuel firstchar first buffer s)
unfolding answer_loop
answer_loop-Tidy zero firstchar first buffer s h = tt
answer_loop-Tidy (suc fuel) firstchar first buffer s h =
    let rest = λ (f : Bool) (b : List ℕ) (t : Relay). answer_loop-Tidy fuel firstchar f b t in
    bind_apart Tidy (lift socket_client_read_frame_header)
      (after_answer_header (answer_loop fuel firstchar) fuel firstchar first buffer) s
      (lift_apart Tidy socket_client_read_frame_header s)
      (after_answer_header-Tidy (answer_loop fuel firstchar) rest fuel firstchar first buffer) h

-- And after it none again.
after_fin-Free :
    (fuel : ℕ) (memory : List ℕ) (p : Progress) (n : Option ℕ) (s : Relay)
    → Free s.pipeout_fd s.pipes
    → Ensures IsFree (after_fin fuel memory p n s)
after_fin-Free fuel memory p none s h = pipeout_error-Free write_error s h
after_fin-Free fuel memory p (some _) s h =
    Ensures-bind IsTidy IsFree
      (λ _. answer_loop fuel p.firstchar true memory >>= λ _. pipeout_close) pipeout_open s
      (pipeout_open-Tidy s h)
      λ _ s1 k.
        Ensures-bind IsTidy IsFree (λ _. pipeout_close) (answer_loop fuel p.firstchar true memory)
          s1 (answer_loop-Tidy fuel p.firstchar true memory s1 k)
          λ _ s2 k'. pipeout_close-Free s2 k'

after_request-Free :
    (fuel : ℕ) (memory : List ℕ) (r : Option Progress) (s : Relay)
    → Free s.pipeout_fd s.pipes
    → Ensures IsFree (after_request fuel memory r s)
unfolding finish_request
after_request-Free fuel memory none s h = h
after_request-Free fuel memory (some p) s h =
    bind_apart Free (pipein_reopen fuel) (λ _. send_packet p [] true >>= after_fin fuel memory p) s
      (pipein_reopen-Free fuel s)
      (λ _ s1.
        bind_apart Free (send_packet p [] true) (after_fin fuel memory p) s1
          (lift_apart Free (packet_of p [] true) s1) (after_fin-Free fuel memory p))
      h

-- If the pipe for the answers has no descriptor, and each one it had was closed as often as it was
-- opened, then whatever the connection, the pipes and the commands do, and whatever the buffer held,
-- the same holds when `pipein_read` returns: in particular each descriptor that it opened for the
-- answer was passed to `close`.
pub pipein_read_lem :
    (fuel : ℕ) (memory : List ℕ) (s : Relay)
    → Free s.pipeout_fd s.pipes
    → Ensures IsFree (pipein_read fuel memory s)
unfolding pipein_read
pipein_read_lem fuel memory s h = elim (Option-cases s.world.client_fd) [
  | inl e ↦
      rw (e, pipein_read)
        (bind_apart Free (pipein_reopen fuel) (λ _. pipeout_error not_connected) s
          (pipein_reopen-Free fuel s) (λ _ s1. pipeout_error-Free not_connected s1) h)
  | inr (n, e) ↦
      let start : Progress = record { first = true; firstchar = 0 } in
      rw (e, pipein_read)
        (bind_apart Free (forward_loop fuel start) (after_request fuel memory) s
          (forward_loop-Free fuel start s) (after_request-Free fuel memory) h)
]
