-- ===== src/Examples/Screens.antt =====
-- A client of src/fbserver.c at a concrete input.
use chroagh.Base.{refl, inl, true, none, some, [], ◌∷◌, ◌*◌, false}
use chroagh.Io.{bytes, took}
use chroagh.WebSocket.State.{World}
use chroagh.WebSocket.Frame.{client_frame}
use chroagh.FbServer.Keys.History.{empty}
use chroagh.FbServer.Cache.{CacheEntry, slot0, Cache}
use chroagh.FbServer.Cache.Balance.{IsBalanced}
use chroagh.FbServer.Screen.{Turn, Screen, Server, write_image}
use chroagh.FbServer.Screen.Showing.{Shows, write_image-Shows}

abbrev unmapped : CacheEntry
unmapped = record { paddr = 0; map = none; fd = none; length = 0 }

abbrev cache : Cache
cache = record { entry0 = unmapped; entry1 = unmapped; next_entry = slot0; calls = [] }

cache-IsBalanced : IsBalanced cache
cache-IsBalanced = record { count = refl; fd0 = inl refl; fd1 = inl refl }

-- Key 38 goes down, and the client leaves.
abbrev arrival : World
arrival = record {
  client_fd = some 5;
  incoming = λ fd.
      bytes (client_frame 2 true (record { k0 = 0; k1 = 0; k2 = 0; k3 = 0 }) (b'K' ∷ 1 ∷ 38 ∷ []))
      ∷ [];
  accepts = λ fd. took 1 ∷ [];
  trace = [];
}

abbrev server : Server
server = record {
  world = arrival;
  children = [];
  keys = empty;
  input = [];
  cache = cache;
  image = none;
  registered = [];
  copies = [];
}

abbrev turn : Turn
turn = record {
  allocates = true;
  bytes_per_line = λ n. 4 * n;
  mapped = [];
  damaged = false;
  cursors = [];
  cursor = none;
  system = record {
    reply = λ calls paddr sig. [];
    is_pid = λ name. true;
    open_file = λ calls file. none;
    mmap = λ calls size fd. none;
    first_word = λ calls m. none;
  };
  strtol = λ digits. none;
}

abbrev screen : Screen
screen = record { shm = true; refresh = true; width = 800; height = 600; paddr = 4096; sig = 7 }

-- The memory is not found, as the helper does not answer.
write_image-Shows_example : Shows turn screen 1920000 [] (write_image turn screen server)
write_image-Shows_example = write_image-Shows turn screen server cache-IsBalanced
