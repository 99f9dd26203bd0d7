-- ===== src/FbServer/Screen/Ending.antt =====
-- What is left of a client when it has gone.
use chroagh.Base.{◌≡◌, none, [], M, Ensures}
use chroagh.WebSocket.Send.Closing
use chroagh.FbServer.Cache.{Cache}
use chroagh.FbServer.Cache.Balance.{IsBalanced, opens, closes}
use chroagh.FbServer.Packets
use chroagh.FbServer.Screen.{Screen, Server}

-- The descriptors of the cache add up.
abbrev Sound : {A : Type 0} → A → Server → Type 0
Sound a s = IsBalanced s.cache

abbrev Keeps : {A : Type 0} → M Server A → Type 0
Keeps m = (s : Server) → IsBalanced s.cache → Ensures Sound (m s)

-- Nothing of the client is left.
abbrev pub IsClean : Server → Type 0
IsClean s =
    (s.world.client_fd ≡ none)
    × (s.keys.pressed ≡ [])
    × (s.cache.entry0.map ≡ none)
    × (s.cache.entry1.map ≡ none)
    × (opens s.cache.calls ≡ closes s.cache.calls)

abbrev Closed : Unit {0} → Server → Type 0
Closed a s = IsBalanced s.cache × (s.world.client_fd ≡ none)
