-- ===== src/Examples/Commands.antt =====
-- Commands run by src/websocket.h, and the relays of src/websocket.c, at concrete inputs.
use chroagh.Base.{
  ◌≡◌, refl, true, false, none, some, [], ◌∷◌, ◌++◌, arith, text, done, fault, Ensures,
}
use chroagh.Io.{bytes, took}
use chroagh.WebSocket.State.{wrote}
use chroagh.WebSocket.Frame.{Key, client_frame, server_frame}
use chroagh.Popen.{Ready, Child, exited, popen2}
use chroagh.Popen.Closing.{Reaps, popen2-Reaps}
use chroagh.Relay.State.{Relay, opens_as}
use chroagh.Relay.Unrequested.{socket_client_handle_unrequested, socket_client_read}
use chroagh.Relay.Unrequested.Replies.{launch_replies, empty_message_overrun}
use chroagh.Relay.Setup.{Disk, missing, pipe_init}
use chroagh.Relay.Setup.Ready.{IsOpen, pipe_init-IsOpen}
use chroagh.Relay.Loop.{Event, Limits}
use chroagh.Relay.Request.{pipein_read}
use chroagh.Relay.Pipe.Balanced.{IsFree}
use chroagh.Relay.Request.Closed.{pipein_read_lem}

-- The child takes one byte of two, then the other, and answers when it ends.
abbrev takes_one : Ready
takes_one = record {
  pollout = true;
  out_other = false;
  taken = some 1;
  pollin = false;
  pollhup = false;
  in_other = false;
  got = none;
}

abbrev answers : Ready
answers = record {
  pollout = false;
  out_other = false;
  taken = none;
  pollin = true;
  pollhup = true;
  in_other = false;
  got = some (7 ∷ []);
}

abbrev child : Child
child = record {
  piped = true;
  forked = true;
  polls = some takes_one ∷ some takes_one ∷ some answers ∷ [];
  status = exited 0;
}

popen2-Reaps_example : Reaps (1 ∷ 2 ∷ []) 4 (exited 0) (popen2 child (1 ∷ 2 ∷ []) 4)
popen2-Reaps_example = popen2-Reaps (1 ∷ 2 ∷ []) 4 child refl refl

abbrev key : Key
key = record { k0 = 1; k1 = 2; k2 = 3; k3 = 4 }

-- The pipe in is 7; pipes open as 8. The client has sent an empty message.
abbrev relay : Relay
relay = record {
  world = record {
    client_fd = some 5;
    incoming = λ fd. bytes (client_frame 1 true key []) ∷ [];
    accepts = λ fd. took 1 ∷ [];
    trace = [];
  };
  pipein_fd = some 7;
  pipeout_fd = none;
  openings = λ name. opens_as 8 ∷ [];
  children = [];
  forks = [];
  launched = [];
  pipes = [];
}

launch_replies_example :
    (s' : Relay) × (socket_client_handle_unrequested (b'C' ∷ (text "next" ++ [])) 5 relay
      ≡ done (true, s'))
    × (s'.launched ≡ text "next" ∷ [])
    × (s'.world.client_fd ≡ some 5)
    × (s'.world.trace ≡ wrote 5 (server_frame 1 true (b'C' ∷ [])) ∷ [])
launch_replies_example =
    launch_replies 5 (text "next") [] relay (ground arith) (ground arith) refl refl (omega arith)

empty_message_overrun_example : socket_client_read 2 (b'C' ∷ []) relay ≡ fault
empty_message_overrun_example = empty_message_overrun 5 1 1 key [] [] relay (omega arith) refl refl

pipein_read_lem_example : Ensures IsFree (pipein_read 9 [] relay)
pipein_read_lem_example = pipein_read_lem 9 [] relay (refl, λ n. refl)

-- No directory yet; one message of the client, and then a signal.
abbrev empty_disk : Disk
empty_disk = record {
  pipe_dir = missing;
  pipes = λ name. missing;
  version = none;
  makes = true;
  stats = true;
  writes = true;
}

pipe_init-IsOpen_example : Ensures IsOpen (pipe_init 2 empty_disk relay)
pipe_init-IsOpen_example = pipe_init-IsOpen 2 empty_disk relay

abbrev message_comes : Event
message_comes = record {
  ready = some 1;
  on_server = false;
  on_pipein = false;
  on_client = true;
  accepted = none;
  memory = 0 ∷ [];
  terminate = false;
}

abbrev signal_comes : Event
signal_comes = record message_comes { ready = none; on_client = false; terminate = true }

abbrev limits : Limits
limits = record { scan = λ s. none; lines = 9; bytes = 4096; fuel = 9 }
