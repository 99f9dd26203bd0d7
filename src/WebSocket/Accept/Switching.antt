-- ===== src/WebSocket/Accept/Switching.antt =====
-- A new client replaces the old one only after the handshake.
use chroagh.Base.{
  ℕ, ◌+◌, ◌≡◌, ◌==◌, ==_refl, refl, sym, ap, ◌∙◌, inl, inr, Bool-cases, Option-cases, Option, none,
  some, List, [], ◌∷◌, ◌++◌, length, take, Outcome, done, exited, aborted, fault, out_of_fuel,
  ◌>>=◌, Ensures, Ensures-bind, Ensures-returned, Ensures-mono,
}
use chroagh.WebSocket.State.{World, Effect, wrote, closed, block_write}
use chroagh.WebSocket.State.Channels.{block_write-cases}
use chroagh.WebSocket.Constants.{buffersize}
use chroagh.WebSocket.Send.Closing.{close_frame, socket_client_close_frame}
use chroagh.WebSocket.Message.{socket_client_sendversion}
use chroagh.WebSocket.Handshake.{socket_server_read_header}
use chroagh.WebSocket.Handshake.Settled.{IsSettled, read_header-IsSettled}
use chroagh.Popen.{Child, Answer, Act, popen2}
use chroagh.WebSocket.Accept.{
  Hub, on_hub, in_world, ran, run_next, run_command, guid, sha1_of, sha1_base64_len, base64_of,
  response, close_if, close_existing, change_client, respond, after_base64, after_sha1, after_key,
  socket_server_accept,
}

-- What was done since `before`: the old client got a Close frame, or a part of it, and was closed.
abbrev pub IsReplaced : Option ℕ → List Effect → List Effect → Type 0
IsReplaced none before now = now ≡ before
IsReplaced (some old) before now =
    (tot : ℕ) × (now ≡ closed old ∷ wrote old (take tot close_frame) ∷ before)

-- How a call ends for the accepted descriptor `fd`.
pub data Accepts (fuel fd : ℕ) (version : List ℕ) (client : Option ℕ) (trace : List Effect)
    (r : Option ℕ) (w : World) : Type 0 where
  refused :
      (t : List Effect)
      → r ≡ none
      → w.client_fd ≡ client
      → w.trace ≡ closed fd ∷ t
      → Accepts fuel fd version client trace r w
  greeted :
      (b64 : List ℕ) (w1 : World)
      → w1.client_fd ≡ some fd
      → IsReplaced client (wrote fd (response b64) ∷ trace) w1.trace
      → socket_client_sendversion fuel version w1 ≡ done (r, w)
      → Accepts fuel fd version client trace r w

on_hub_lem :
    {A : Type 0} (P : A → World → Type 0) (cs : List Child) (r : Outcome (A × World))
    → Ensures P r
    → Ensures (λ a s. P a s.world) (on_hub cs r)
on_hub_lem P cs (done (a, w)) h = h
on_hub_lem P cs (exited n) h = tt
on_hub_lem P cs aborted h = tt
on_hub_lem P cs fault h = tt
on_hub_lem P cs out_of_fuel h = tt

ran_same :
    (s : Hub) (r : Outcome (Answer × List Act)) → Ensures (λ _ s'. s'.world ≡ s.world) (ran s r)
ran_same s (done (a, acts)) = refl
ran_same s (exited n) = tt
ran_same s aborted = tt
ran_same s fault = tt
ran_same s out_of_fuel = tt

-- Running a command does nothing to the descriptors of the globals.
run_next_same :
    (input : List ℕ) (outlen : ℕ) (cs : List Child) (s : Hub)
    → Ensures (λ _ s'. s'.world ≡ s.world) (run_next input outlen cs s)
run_next_same input outlen [] s = tt
run_next_same input outlen (child ∷ rest) s =
    ran_same (record s { children = rest }) (popen2 child input outlen)

run_command_same :
    (input : List ℕ) (outlen : ℕ) (s : Hub)
    → Ensures (λ _ s'. s'.world ≡ s.world) (run_command input outlen s)
unfolding run_command
run_command_same input outlen s = run_next_same input outlen s.children s

module _ (fuel fd : ℕ) (version : List ℕ) (client : Option ℕ) (trace : List Effect) where
  abbrev Result : Option ℕ → World → Type 0
  Result r w = Accepts fuel fd version client trace r w

  greets :
      (b64 : List ℕ) (w1 : World)
      → w1.client_fd ≡ some fd
      → IsReplaced client (wrote fd (response b64) ∷ trace) w1.trace
      → Ensures Result (socket_client_sendversion fuel version w1)
  greets b64 w1 c t =
      Ensures-mono (λ r w. socket_client_sendversion fuel version w1 ≡ done (r, w)) Result
        (socket_client_sendversion fuel version w1) (λ r w e. greeted b64 w1 c t e)
        (Ensures-returned (socket_client_sendversion fuel version w1))

  changed :
      (b64 : List ℕ) (w : World)
      → w.client_fd ≡ client
      → w.trace ≡ wrote fd (response b64) ∷ trace
      → Ensures Result (change_client fuel fd version w)
  unfolding change_client close_existing
  changed b64 w c t = elim (Option-cases w.client_fd) [
    | inl gone ↦
        let none_before : client ≡ none = sym c ∙ gone in
        let run : close_existing w ≡ done (tt, w) = ap (λ o. close_if o w) gone in
        rw (run, ◌>>=◌) (greets b64 (record w { client_fd = some fd }) refl (rw none_before t))
    | inr (old, open_fd) ↦
        let (tot, w', shut, closes) = socket_client_close_frame old w open_fd in
        let old_before : client ≡ some old = sym c ∙ open_fd in
        let run : close_existing w ≡ done (tt, w') = ap (λ o. close_if o w) open_fd ∙ shut in
        rw (run, ◌>>=◌)
          (greets b64 (record w' { client_fd = some fd }) refl
            (rw old_before
              (tot, closes.trace ∙ ap (λ b. closed old ∷ wrote old (take tot close_frame) ∷ b) t)))
  ]

  responded :
      (b64 : List ℕ) (w : World)
      → w.client_fd ≡ client
      → w.trace ≡ trace
      → Ensures Result (respond fuel fd version b64 w)
  unfolding respond
  responded b64 w c t = elim (Bool-cases (length (response b64) == buffersize)) [
    | inl e ↦ rw e tt
    | inr e ↦ elim (block_write-cases fd (response b64) w) [
      | inl whole ↦
          rw (e, whole.0, ==_refl (length (response b64)))
            (changed b64 (block_write (some fd) (response b64) w).1 (whole.1.client ∙ c)
              (whole.1.trace ∙ ap (λ b. wrote fd (response b64) ∷ b) t))
      | inr short ↦ rw (e, short.1) (refused _ refl (short.3.client ∙ c) refl)
    ]
  ]

  IsBefore : World → Type 0
  IsBefore w = (w.client_fd ≡ client) × (w.trace ≡ trace)

  ready : (w v : World) → v ≡ w → IsBefore w → IsBefore v
  ready w v e h = rw e h

module _ (scan : List ℕ → Option ℕ) (memory : List ℕ) (lines bytes fuel port : ℕ) (version : List ℕ)
    (fd : ℕ) (client : Option ℕ) (trace : List Effect) where
  abbrev Good : Option ℕ → Hub → Type 0
  Good r s = Accepts fuel fd version client trace r s.world

  after_base64_lem :
      (o : Option (List ℕ)) (s : Hub)
      → IsBefore fuel fd version client trace s.world
      → Ensures Good (after_base64 scan memory lines bytes fuel port version fd o s)
  unfolding IsBefore
  after_base64_lem none s h = tt
  after_base64_lem (some b64) s h =
      on_hub_lem (Result fuel fd version client trace) s.children
        (respond fuel fd version b64 s.world)
        (responded fuel fd version client trace b64 s.world h.0 h.1)

  after_sha1_lem :
      (o : Option (List ℕ)) (s : Hub)
      → IsBefore fuel fd version client trace s.world
      → Ensures Good (after_sha1 scan memory lines bytes fuel port version fd o s)
  after_sha1_lem none s h = tt
  after_sha1_lem (some sha1) s h =
      Ensures-bind (λ _ s'. s'.world ≡ s.world) Good
        (λ a. after_base64 scan memory lines bytes fuel port version fd (base64_of a))
        (run_command sha1 (sha1_base64_len + 4)) s (run_command_same sha1 (sha1_base64_len + 4) s)
        λ a s' e.
          after_base64_lem (base64_of a) s'
            (ready fuel fd version client trace s.world s'.world e h)

  after_key_lem :
      (o : Option (List ℕ)) (s : Hub)
      → IsSettled fd client trace o s.world
      → Ensures Good (after_key scan memory lines bytes fuel port version fd o s)
  unfolding IsSettled IsBefore
  after_key_lem none s h = refused h.1 refl h.0 h.2
  after_key_lem (some key) s h =
      Ensures-bind (λ _ s'. s'.world ≡ s.world) Good
        (λ a. after_sha1 scan memory lines bytes fuel port version fd (sha1_of scan memory a))
        (run_command (key ++ guid) buffersize) s (run_command_same (key ++ guid) buffersize s)
        λ a s' e.
          after_sha1_lem (sha1_of scan memory a) s'
            (ready fuel fd version client trace s.world s'.world e (h.0, h.1))

-- Whatever the new client, the commands and the connections do: when the call returns, either the
-- new descriptor is closed and the old client is still the client, or the 101 response was written
-- whole, after which the old client was closed, the new one took its place, and the result is that
-- of the exchange of versions with it.
pub accept-Accepts :
    (scan : List ℕ → Option ℕ) (memory : List ℕ) (lines bytes fuel port : ℕ) (version : List ℕ)
    (fd : ℕ) (s : Hub)
    → Ensures
        (λ r s'. Accepts fuel fd version s.world.client_fd s.world.trace r s'.world)
        (socket_server_accept scan memory lines bytes fuel port version (some fd) s)
unfolding socket_server_accept
accept-Accepts scan memory lines bytes fuel port version fd s =
    let client = s.world.client_fd in
    let trace = s.world.trace in
    let header = socket_server_read_header lines bytes port fd in
    Ensures-bind (λ o s'. IsSettled fd client trace o s'.world)
      (Good scan memory lines bytes fuel port version fd client trace)
      (after_key scan memory lines bytes fuel port version fd) (in_world header) s
      (on_hub_lem (IsSettled fd client trace) s.children (header s.world)
        (read_header-IsSettled lines bytes port fd s.world))
      (after_key_lem scan memory lines bytes fuel port version fd client trace)
