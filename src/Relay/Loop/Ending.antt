-- ===== src/Relay/Loop/Ending.antt =====
-- How croutonwebsocket ends.
use chroagh.Base.{◌≡◌, ◌⊎◌, none, some}
use chroagh.Relay.State.{Relay}
use chroagh.Relay.Pipe.Balanced.{Free}
use chroagh.Relay.Setup.{Disk}
use chroagh.Relay.Setup.Ready.{IsReady}

-- The end: no descriptor for answers, each one closed as often as it was opened, and no client but for descriptor 0.
pub record IsOver (d : Disk) (s : Relay) : Type 0 where
  pub files : IsReady d
  pub answers : Free s.pipeout_fd s.pipes
  pub client : (s.world.client_fd ≡ none) ⊎ (s.world.client_fd ≡ some 0)

abbrev IsGone : {A : Type 0} → A → Relay → Type 0
IsGone _ s =
    (Free s.pipeout_fd s.pipes) × ((s.world.client_fd ≡ none) ⊎ (s.world.client_fd ≡ some 0))
