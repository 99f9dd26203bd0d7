-- ===== src/Relay/Unrequested/Apart.antt =====
-- Commands of the extension, and the pipe for the answers.
use chroagh.Base.{
  ℕ, ◌-◌, ◌==◌, leb, inl, inr, Bool-cases, Bool, true, false, Option, none, some, List, [], ◌∷◌,
  ◌++◌, List-cases, length, take, drop, get_or, replicate, Outcome, M, done, exited, aborted, fault,
  out_of_fuel, ◌>>=◌, Ensures, Ensures-bind,
}
use chroagh.WebSocket.State.{World}
use chroagh.WebSocket.Constants.{buffersize, framemaxheadersize, opcode_text}
use chroagh.WebSocket.Send.{socket_client_write_frame, socket_client_close}
use chroagh.WebSocket.Message.{c_string, socket_client_read_frame}
use chroagh.Popen.{Answer, Act, output, minus, popen2}
use chroagh.Relay.State.{PipeCall, Relay, on_world, lift}
use chroagh.Relay.Unrequested.{
  send_reply, after_reply, list_reply, list_command, launch_with, launch, cycle_command,
  socket_client_handle_unrequested, client_close, handle_message, socket_client_read,
}

module _ (P : Option ℕ → List PipeCall → Type 0) where
  -- What holds of the pipe for the answers.
  abbrev pub IsApart : {A : Type 0} → A → Relay → Type 0
  IsApart _ s = P s.pipeout_fd s.pipes

  abbrev pub Keeps : {A : Type 0} → Relay → Outcome (A × Relay) → Type 0
  Keeps s r = P s.pipeout_fd s.pipes → Ensures IsApart r

  on_world_apart : {A : Type 0} (s : Relay) (r : Outcome (A × World)) → Keeps s (on_world s r)
  on_world_apart s (done (a, w)) h = h
  on_world_apart s (exited n) h = tt
  on_world_apart s aborted h = tt
  on_world_apart s fault h = tt
  on_world_apart s out_of_fuel h = tt

  pub lift_apart : {A : Type 0} (m : M World A) (s : Relay) → Keeps s (lift m s)
  lift_apart m s = on_world_apart s (m s.world)

  pub bind_apart :
      {A B : Type 0} (m : M Relay A) (k : A → M Relay B) (s : Relay)
      → Keeps s (m s)
      → ((a : A) (t : Relay) → Keeps t (k a t))
      → Keeps s ((m >>= k) s)
  bind_apart m k s first rest h = Ensures-bind IsApart IsApart k m s (first h) rest

  after_reply_apart : (n : Option ℕ) (s : Relay) → Keeps s (after_reply n s)
  after_reply_apart none s h = h
  after_reply_apart (some n) s h = h

  send_reply_apart : (reply : List ℕ) (s : Relay) → Keeps s (send_reply reply s)
  unfolding send_reply
  send_reply_apart reply s =
      let m =
        socket_client_write_frame (replicate framemaxheadersize 0 ++ reply) (length reply)
          opcode_text true in
      bind_apart (lift m) after_reply s (lift_apart m s) after_reply_apart

  list_reply_apart : (s : Relay) (r : Outcome (Answer × List Act)) → Keeps s (list_reply s r)
  list_reply_apart s (done (output bytes, acts)) h = send_reply_apart (b'C' ∷ bytes) s h
  list_reply_apart s (done (minus n, acts)) h = h
  list_reply_apart s (exited n) h = tt
  list_reply_apart s aborted h = tt
  list_reply_apart s fault h = tt
  list_reply_apart s out_of_fuel h = tt

  list_command_apart : (s : Relay) → Keeps s (list_command s)
  unfolding list_command
  list_command_apart s h = elim (List-cases s.children) [
    | inl e ↦ rw (e, list_command) tt
    | inr (child, rest, e) ↦
        rw (e, list_command)
          (list_reply_apart (record s { children = rest })
            (popen2 child [] (buffersize - framemaxheadersize - 1)) h)
  ]

  launch_with_apart :
      (param : List ℕ) (s : Relay) (forks : List Bool) → Keeps s (launch_with param s forks)
  launch_with_apart param s [] h =
      send_reply_apart (b'C' ∷ []) (record s { launched = param ∷ s.launched }) h
  launch_with_apart param s (false ∷ rest) h = tt
  launch_with_apart param s (true ∷ rest) h =
      send_reply_apart (b'C' ∷ []) (record s { forks = rest; launched = param ∷ s.launched }) h

  cycle_command_apart : (param : List ℕ) (s : Relay) → Keeps s (cycle_command param s)
  unfolding cycle_command launch
  cycle_command_apart param s h = elim (Bool-cases (get_or param 0 0 == b'l')) [
    | inl e ↦ rw e (list_command_apart s h)
    | inr e ↦ elim (Bool-cases (get_or param 0 0 == b'O')) [
      | inl o ↦ rw (e, o) h
      | inr o ↦ rw (e, o) (launch_with_apart param s s.forks h)
    ]
  ]

  pub handle_unrequested_apart :
      (buffer : List ℕ) (size : ℕ) (s : Relay)
      → Keeps s (socket_client_handle_unrequested buffer size s)
  unfolding socket_client_handle_unrequested
  handle_unrequested_apart buffer size s h = elim (Bool-cases (get_or buffer 0 0 == b'C')) [
    | inr e ↦ rw e h
    | inl e ↦ elim (Bool-cases (size == 0)) [
      | inl z ↦ rw (e, z) tt
      | inr z ↦ rw (e, z) (cycle_command_apart (c_string (take (size - 1) (drop 1 buffer))) s h)
    ]
  ]

  pub client_close_apart : (sendclose : Bool) (s : Relay) → Keeps s (client_close sendclose s)
  unfolding client_close
  client_close_apart sendclose s = lift_apart (socket_client_close sendclose) s

  handle_message_apart : (m : Option ℕ × List ℕ) (s : Relay) → Keeps s (handle_message m s)
  handle_message_apart (none, buffer) s h = client_close_apart true s h
  handle_message_apart (some size, buffer) s h = elim (Bool-cases (leb buffersize size)) [
    | inl e ↦ rw e (client_close_apart true s h)
    | inr e ↦ rw e (
        bind_apart (socket_client_handle_unrequested buffer size) (λ _ t. done (tt, t)) s
          (handle_unrequested_apart buffer size s) (λ _ t k. k) h)
  ]

  -- A message of the extension.
  pub client_read_apart :
      (fuel : ℕ) (memory : List ℕ) (s : Relay) → Keeps s (socket_client_read fuel memory s)
  unfolding socket_client_read
  client_read_apart fuel memory s =
      let m = socket_client_read_frame fuel memory buffersize in
      bind_apart (lift m) handle_message s (lift_apart m s) handle_message_apart
