-- ===== src/FbServer/Screen.antt =====
-- Images and cursors, and the loops of `main`, in src/fbserver.c. The X server and the system are
-- arguments.
pub mod Ending
pub mod Showing
use chroagh.Base.{
  ℕ, zero, suc, ◌+◌, ◌*◌, ◌/◌, ◌%◌, ◌^◌, ◌==◌, ltb, not, ◌&&◌, ◌||◌, if◌then◌else◌, Bool, true,
  false, Option, none, some, List, [], ◌∷◌, ◌++◌, map, length, get_or, replicate, little_endian,
  Outcome, M, done, exited, aborted, fault, out_of_fuel, ◌>>=◌,
}
use chroagh.WebSocket.State.{World}
use chroagh.WebSocket.Constants.{buffersize}
use chroagh.WebSocket.Send.{socket_client_close}
use chroagh.WebSocket.Message.{socket_client_read_frame}
use chroagh.WebSocket.Accept.{Hub}
use chroagh.Popen.{Child}
use chroagh.FbServer.Keys.{Keys, kb_release_all}
use chroagh.FbServer.Cache.{
  System, Slot, slot0, slot1, Cache, CacheEntry, entry, close_mmap, find_shm,
}
use chroagh.FbServer.Packets.{Input, Session, word16, input_case}
use chroagh.FbServer.Packets
use chroagh.FbServer.Replies.{send_binary, change_resolution}

-- `XFixesGetCursorImage`
pub record CursorImage : Type 0 where
  pub width : ℕ
  pub height : ℕ
  pub xhot : ℕ
  pub yhot : ℕ
  pub serial : ℕ
  pub pixels : List ℕ

-- What there is for one packet: whether an image can be made, and its bytes in a line of so many
-- pixels; the new windows, whether there was damage, and the serial numbers of new cursors, the last
-- one first; the cursor; the system; and `strtol`.
pub record Turn : Type 0 where
  pub allocates : Bool
  pub bytes_per_line : ℕ → ℕ
  pub mapped : List ℕ
  pub damaged : Bool
  pub cursors : List ℕ
  pub cursor : Option CursorImage
  pub system : System
  pub strtol : List ℕ → Option (ℕ × List ℕ)

-- The state; `image` is the size of the image, `none` for NULL; `registered` are the windows that
-- `register_damage` was called for, and `copies` are maps that were written, with their sizes.
pub record Server : Type 0 where
  pub world : World
  pub children : List Child
  pub keys : Keys
  pub input : List Input
  pub cache : Cache
  pub image : Option (ℕ × ℕ)
  pub registered : List ℕ
  pub copies : List (ℕ × ℕ)

abbrev pub on_server : {A S : Type 0} → (S → Server) → Outcome (A × S) → Outcome (A × Server)
on_server put (done (a, s)) = done (a, put s)
on_server put (exited n) = exited n
on_server put aborted = aborted
on_server put fault = fault
on_server put out_of_fuel = out_of_fuel

abbrev pub in_world : {A : Type 0} → M World A → M Server A
in_world m s = on_server (λ w. record s { world = w }) (m s.world)

abbrev pub in_hub : {A : Type 0} → M Hub A → M Server A
in_hub m s =
    on_server (λ h. record s { world = h.world; children = h.children })
      (m (record { world = s.world; children = s.children }))

abbrev pub in_cache : {A : Type 0} → M Cache A → M Server A
in_cache m s = on_server (λ c. record s { cache = c }) (m s.cache)

abbrev pub in_session : {A : Type 0} → M Session A → M Server A
in_session m s =
    on_server (λ t. record s { world = t.world; keys = t.keys; input = t.input })
      (m (record { world = s.world; keys = s.keys; input = s.input }))

-- struct screen
pub record Screen : Type 0 where
  pub shm : Bool
  pub refresh : Bool
  pub width : ℕ
  pub height : ℕ
  pub paddr : ℕ
  pub sig : ℕ

-- `n` bytes from an offset on, the lowest first.
abbrev pub number_at : ℕ → List ℕ → ℕ → ℕ
number_at zero bytes at = 0
number_at (suc n) bytes at = get_or bytes at 0 + 256 * number_at n bytes (at + 1)

abbrev pub screen_of : List ℕ → Screen
screen_of buffer = record {
  shm = get_or buffer 1 0 % 2 == 1;
  refresh = get_or buffer 1 0 / 2 % 2 == 1;
  width = word16 buffer 2;
  height = word16 buffer 4;
  paddr = number_at 8 buffer 6;
  sig = number_at 8 buffer 14;
}

abbrev pub bit : Bool → ℕ
bit b = if b then 1 else 0

abbrev pub last_cursor : List ℕ → ℕ
last_cursor [] = 0
last_cursor (c ∷ cs) = c

abbrev pub is_empty : List ℕ → Bool
is_empty [] = true
is_empty (x ∷ xs) = false

-- struct screen_reply. There is a frame in shared memory if it is updated.
abbrev pub screen_reply : Turn → Screen → Bool → Bool → List ℕ
screen_reply t screen updated failed =
    b'S'
    ∷ (bit updated + 2 * bit failed + 4 * bit updated + 8 * bit (not (is_empty t.cursors)))
    ∷ (little_endian 2 screen.width
        ++ (little_endian 2 screen.height ++ little_endian 4 (last_cursor t.cursors)))

abbrev pub has_size : ℕ → ℕ → Option (ℕ × ℕ) → Bool
has_size width height none = false
has_size width height (some (w, h)) = w == width && h == height

-- `entry && entry->map`, with a copy if the size is right; the result is `shmfailed`.
abbrev pub copy_to : ℕ → ℕ → Option ℕ → M Server Bool
copy_to size size' none s = done (true, s)
copy_to size size' (some m) s =
    if size == size'
    then done (false, record s { copies = (m, size) ∷ s.copies })
    else done (true, s)

abbrev pub copy_image : ℕ → Option Slot → M Server Bool
copy_image size none s = done (true, s)
copy_image size (some i) s = copy_to size (entry i s.cache).length (entry i s.cache).map s

abbrev pub send_frame : Turn → Screen → ℕ → M Server (Unit {0})
send_frame t screen size = in_cache (find_shm t.system screen.paddr screen.sig size) >>= λ e.
    copy_image size e >>= λ failed. in_world (send_binary (screen_reply t screen true failed))

-- The new image, unless there is no update.
abbrev pub answer_screen : Turn → Screen → Bool → M Server (Unit {0})
answer_screen t screen refresh =
    let size = t.bytes_per_line screen.width * screen.height in
    if not refresh
    then in_world (send_binary (screen_reply t screen false false))
    else if not (size % 2 ^ 32 == screen.width * screen.height * 4 % 2 ^ 32)
    then (λ s. aborted)
    else if not screen.shm
    then (λ s. aborted)
    else send_frame t screen size

unfoldable pub write_image : Turn → Screen → M Server (Unit {0})
write_image t screen s =
    let fresh = not (has_size screen.width screen.height s.image) in
    if fresh && not t.allocates
    then aborted
    else answer_screen t screen (fresh || screen.refresh || not (is_empty t.mapped) || t.damaged)
        (record s {
          image = some (screen.width, screen.height);
          registered = t.mapped ++ s.registered;
        })

abbrev pub joined : List (List ℕ) → List ℕ
joined [] = []
joined (xs ∷ xss) = xs ++ joined xss

-- struct cursor_reply, with the low 32 bits of each pixel.
abbrev pub cursor_reply : CursorImage → List ℕ
cursor_reply c =
    b'P'
    ∷ (little_endian 2 c.width
        ++ (little_endian 2 c.height
            ++ (little_endian 2 c.xhot
                ++ (little_endian 2 c.yhot
                    ++ (little_endian 4 c.serial ++ joined (map (little_endian 4) c.pixels))))))

abbrev pub write_cursor_of : Option CursorImage → M Server (Unit {0})
write_cursor_of none s = done (tt, s)
write_cursor_of (some c) s = in_world (send_binary (cursor_reply c)) s

unfoldable pub write_cursor : Turn → M Server (Unit {0})
write_cursor t = write_cursor_of t.cursor

abbrev pub if_right : ℕ → ℕ → M Server (Unit {0}) → M Server (Unit {0})
if_right size target m = in_session (Packets.check_size size target) >>= λ right.
    if right then m else (λ s. done (tt, s))

abbrev pub other_packet : Option (M Session (Unit {0})) → M Server (Unit {0})
other_packet none s = done (tt, s)
other_packet (some m) s = in_session m s

-- The switch.
unfoldable pub handle_packet : Turn → List ℕ → ℕ → M Server (Unit {0})
handle_packet t buffer size =
    let c = get_or buffer 0 0 in
    if c == b'S'
    then if_right size 22 (write_image t (screen_of buffer))
    else if c == b'P'
    then if_right size 1 (write_cursor t)
    else if c == b'R'
    then if_right size 5 (in_hub (change_resolution t.strtol))
    else other_packet (input_case buffer size)

-- The round of a packet; the length is `none` if it is negative.
abbrev pub after_read :
    (List ℕ → M Server (Unit {0})) → Turn → Option ℕ × List ℕ → M Server (Unit {0})
after_read again t (none, buffer) = in_world (socket_client_close true)
after_read again t (some zero, buffer) = in_world (socket_client_close false)
after_read again t (some (suc n), buffer) = handle_packet t buffer (suc n) >>= λ _. again buffer

-- The inner loop, with what there is for each packet.
unfoldable pub read_packets : ℕ → List Turn → List ℕ → M Server (Unit {0})
read_packets fuel [] buffer = λ s. out_of_fuel
read_packets fuel (t ∷ ts) buffer =
    in_world (socket_client_read_frame fuel buffer buffersize)
    >>= after_read (read_packets fuel ts) t

abbrev pub release_all : M Server (Unit {0})
release_all s = on_server (λ k. record s { keys = k }) (kb_release_all s.keys)

abbrev pub close_maps : M Server (Unit {0})
close_maps s = done (tt, record s { cache = close_mmap slot1 (close_mmap slot0 s.cache) })

-- A client, from its first packet on.
unfoldable pub serve_client : ℕ → List Turn → List ℕ → M Server (Unit {0})
serve_client fuel ts buffer = read_packets fuel ts buffer >>= λ _.
    in_world (socket_client_close false) >>= λ _. release_all >>= λ _. close_maps
