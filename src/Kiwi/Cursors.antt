-- ===== src/Kiwi/Cursors.antt =====
-- The pixels of cursors: `SocketParseCursor` of host-ext/nacl_src/kiwi.cc.
use chroagh.Base.{
  ℕ, zero, suc, ◌+◌, ◌-◌, ◌*◌, ◌/◌, ltb, Bool, ◌&&◌, length, ◌||◌, if◌then◌else◌, List, [], ◌∷◌,
  ◌++◌,
}
use chroagh.FbServer.Packets.{word16}
use chroagh.Kiwi.State.{Cursor}

-- A little-endian `uint32_t` at an offset.
abbrev pub word32 : List ℕ → ℕ → ℕ
word32 bytes at = word16 bytes at + 65536 * word16 bytes (at + 2)

-- The loop for the scale, in so many rounds.
unfoldable pub find_scale : ℕ → ℕ → ℕ → ℕ → ℕ
find_scale zero width height scale = scale
find_scale (suc rounds) width height scale =
    let next = find_scale rounds width height (scale * 2) in
    if ltb 32 (width / scale) || ltb 32 (height / scale) then next else scale

abbrev pub scale_of : ℕ → ℕ → ℕ
scale_of width height = find_scale 11 width height 1

-- `n` values from index `i` on.
unfoldable pub from : {A : Type 0} → (ℕ → A) → ℕ → ℕ → List A
from f i zero = []
from f i (suc n) = f i ∷ from f (i + 1) n

abbrev pub joined : List (List ℕ) → List ℕ
joined [] = []
joined (xs ∷ xss) = xs ++ joined xss

-- The index of the source pixel, in a picture with `w` columns.
abbrev pub source_index : ℕ → ℕ → ℕ → ℕ → ℕ
source_index scale w y x = scale * y * scale * w + scale * x

abbrev pub shrink : (ℕ → ℕ) → ℕ → ℕ → ℕ → List ℕ
shrink pixel scale w h = joined (from (λ y. from (λ x. pixel (source_index scale w y x)) 0 w) 0 h)

abbrev pub pixel_of : List ℕ → ℕ → ℕ
pixel_of bytes i = word32 bytes (13 + 4 * i)

-- A cursor from its size, its hot point, its serial number and its pixels.
abbrev pub scaled_cursor : (ℕ → ℕ) → ℕ → ℕ → ℕ → ℕ → ℕ → Cursor
scaled_cursor pixel width height x y serial =
    let scale = scale_of width height in
    record {
      serial = serial;
      width = width / scale;
      height = height / scale;
      pixels = shrink pixel scale (width / scale) (height / scale);
      hot_x = x / scale;
      hot_y = y / scale;
    }

abbrev pub cursor_of : List ℕ → Cursor
cursor_of bytes =
    scaled_cursor (pixel_of bytes) (word16 bytes 1) (word16 bytes 3) (word16 bytes 5)
      (word16 bytes 7) (word32 bytes 9)

-- The pixel read that is farthest from the start, that of the last row and column, is not inside of
-- the message.
abbrev beyond : List ℕ → ℕ → ℕ → ℕ → Bool
beyond bytes scale w h =
    ltb 0 w && ltb 0 h && ltb (length bytes) (13 + 4 * source_index scale w (h - 1) (w - 1) + 4)

abbrev pub reads_beyond : List ℕ → Bool
reads_beyond bytes =
    let scale = scale_of (word16 bytes 1) (word16 bytes 3) in
    beyond bytes scale (word16 bytes 1 / scale) (word16 bytes 3 / scale)
