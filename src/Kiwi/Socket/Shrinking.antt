-- ===== src/Kiwi/Socket/Shrinking.antt =====
-- Small cursors.
use chroagh.Base.{
  ℕ, zero, suc, ◌+◌, ◌-◌, ◌*◌, ◌/◌, ◌%◌, ◌^◌, ◌≤◌, ◌<◌, ◌≡◌, ◌==◌, refl, ap, ◌∙◌, inl, inr,
  Bool-cases, ltb, ◌||◌, ◌&&◌, Bool, true, false, List, [], ◌∷◌, ◌++◌, length, get_or, arith,
}
use native.Mathlib.Nat.{pow-suc, div-add-mod, div-lt_iff_lt-mul, mul-le-mul_left, mul-le-mul_right}
use chroagh.FbServer.Packets.{word16}
use chroagh.Kiwi.State.{Kiwi}
use chroagh.Kiwi.Cursors.{
  find_scale, scale_of, from, joined, source_index, pixel_of, cursor_of, reads_beyond,
}
use chroagh.Kiwi.Socket.{keep_cursor, check_size, socket_parse_cursor}

-- A size and a scale that fit.
abbrev Fits : ℕ → ℕ → ℕ → Type 0
Fits width height scale = (0 < scale) × (width / scale ≤ 32) × (height / scale ≤ 32)

quotient_le : (n s : ℕ) → 0 < s → n < 33 * s → n / s ≤ 32
quotient_le n s pos h = let q : n / s < 33 = (div-lt_iff_lt-mul pos).1 h in omega (arith, q)

or_false : (a b : Bool) → (a || b) ≡ false → (a ≡ false) × (b ≡ false)
or_false false false h = (refl, refl)
or_false false true h = absurd (ground (arith, h))
or_false true b h = absurd (ground (arith, h))

twice : (rounds scale : ℕ) → 33 * (scale * 2 ^ suc rounds) ≡ 33 * (scale * 2 * 2 ^ rounds)
twice rounds scale = omega (arith, ap (λ t. scale * t) (pow-suc 2 rounds))

find_scale-Fits :
    (rounds width height scale : ℕ)
    → 0 < scale
    → width < 33 * (scale * 2 ^ rounds)
    → height < 33 * (scale * 2 ^ rounds)
    → Fits width height (find_scale rounds width height scale)
unfolding find_scale
find_scale-Fits zero width height scale pos w h = (
  pos,
  quotient_le width scale pos (omega (arith, w)),
  quotient_le height scale pos (omega (arith, h)),
)
find_scale-Fits (suc rounds) width height scale pos w h =
    elim (Bool-cases (ltb 32 (width / scale) || ltb 32 (height / scale))) [
      | inl e ↦ rw e (
          find_scale-Fits rounds width height (scale * 2) (omega (arith, pos))
            (omega (arith, w, twice rounds scale)) (omega (arith, h, twice rounds scale)))
      | inr e ↦
          let (a, b) = or_false (ltb 32 (width / scale)) (ltb 32 (height / scale)) e in
          rw e (pos, ground (arith, a), ground (arith, b))
    ]

index_lt :
    (width height scale y x : ℕ)
    → 0 < scale
    → y < height / scale
    → x < width / scale
    → source_index scale (width / scale) y x < width * height
index_lt width height scale y x pos hy hx =
    let w = width / scale in
    let columns : scale * w ≤ width = omega (arith, div-add-mod width scale) in
    let rows : scale * (height / scale) ≤ height = omega (arith, div-add-mod height scale) in
    let y1 : y + 1 ≤ height / scale = omega (arith, hy) in
    let x1 : x + 1 ≤ w = omega (arith, hx) in
    let above : scale * (y + 1) ≤ height = omega (arith, rows, mul-le-mul_left scale y1) in
    let left : scale * (x + 1) ≤ width = omega (arith, columns, mul-le-mul_left scale x1) in
    omega (
      arith,
      left,
      pos,
      mul-le-mul_left (scale * y) columns,
      mul-le-mul_right width above,
      mul-le-mul_right width pos,
    )

scale_of-Fits :
    (width height : ℕ) → width < 65536 → height < 65536 → Fits width height (scale_of width height)
scale_of-Fits width height w h =
    find_scale-Fits 11 width height 1 (omega arith) (omega (arith, w)) (omega (arith, h))

-- Reading inside of the message.
get_or_front : (xs ys : List ℕ) (i : ℕ) → i < length xs → get_or (xs ++ ys) i 0 ≡ get_or xs i 0
get_or_front [] ys i h = absurd (omega (arith, h))
get_or_front (x ∷ xs) ys zero h = refl
get_or_front (x ∷ xs) ys (suc i) h = get_or_front xs ys i (omega (arith, h))

from_length : {A : Type 0} (f : ℕ → A) (i n : ℕ) → length (from f i n) ≡ n
unfolding from
from_length f i zero = refl
from_length f i (suc n) = ap suc (from_length f (i + 1) n)

from_at : (f : ℕ → ℕ) (i n k : ℕ) → k < n → get_or (from f i n) k 0 ≡ f (i + k)
unfolding from
from_at f i zero k h = absurd (omega (arith, h))
from_at f i (suc n) zero h = ap f (omega arith)
from_at f i (suc n) (suc k) h = from_at f (i + 1) n k (omega (arith, h)) ∙ ap f (omega arith)

get_or_behind : (xs ys : List ℕ) (i : ℕ) → get_or (xs ++ ys) (length xs + i) 0 ≡ get_or ys i 0
get_or_behind [] ys i = ap (λ t. get_or ys t 0) (omega arith)
get_or_behind (x ∷ xs) ys i =
    let e : suc (length xs) + i ≡ suc (length xs + i) = omega arith in
    ap (λ t. get_or (x ∷ (xs ++ ys)) t 0) e ∙ get_or_behind xs ys i

-- The pixel in row `y` and column `x` of `n` rows from row `j` on.
rows_at :
    (g : ℕ → ℕ → ℕ) (w j n y x : ℕ)
    → y < n
    → x < w
    → get_or (joined (from (λ r. from (g r) 0 w) j n)) (y * w + x) 0 ≡ g (j + y) x
unfolding from
rows_at g w j zero y x hy hx = absurd (omega (arith, hy))
rows_at g w j (suc n) zero x hy hx =
    let row = from (g j) 0 w in
    let inside : x < length row = omega (arith, from_length (g j) 0 w, hx) in
    let e : 0 * w + x ≡ x = omega arith in
    let e' : j + 0 ≡ j = omega arith in
    rw (e, e', get_or_front row (joined (from (λ r. from (g r) 0 w) (j + 1) n)) x inside)
      (from_at (g j) 0 w x hx ∙ ap (g j) (omega arith))
rows_at g w j (suc n) (suc y) x hy hx =
    let row = from (g j) 0 w in
    let e : suc y * w + x ≡ length row + (y * w + x) = omega (arith, from_length (g j) 0 w) in
    rw e (
      get_or_behind row (joined (from (λ r. from (g r) 0 w) (j + 1) n)) (y * w + x)
      ∙ rows_at g w (j + 1) n y x (omega (arith, hy)) hx
      ∙ ap (λ r. g r x) (omega arith))

module _ (bytes behind : List ℕ) (s : Kiwi) (y x : ℕ)
    (size : length bytes ≡ 13 + 4 * word16 bytes 1 * word16 bytes 3) (small : length bytes < 2 ^ 32)
    (narrow : word16 bytes 1 < 65536) (low : word16 bytes 3 < 65536) where
  inside : reads_beyond bytes ≡ false
  inside =
      let width = word16 bytes 1 in
      let height = word16 bytes 3 in
      let scale = scale_of width height in
      let (pos, _, _) = scale_of-Fits width height narrow low in
      let w = width / scale in
      let h = height / scale in
      elim (Bool-cases (ltb 0 w && ltb 0 h)) [
        | inr none_read ↦ rw none_read refl
        | inl some_read ↦
            let wide : 0 < w = ground arith in
            let tall : 0 < h = ground arith in
            let last =
              index_lt width height scale (h - 1) (w - 1) pos (omega (arith, tall))
                (omega (arith, wide)) in
            let e : ltb (length bytes) (13 + 4 * source_index scale w (h - 1) (w - 1) + 4) ≡ false =
              ground (arith, size, last) in
            rw (some_read, e) refl
      ]

  parsed :
      socket_parse_cursor (record { bytes = bytes; behind = behind }) s
      ≡ (true, keep_cursor (cursor_of bytes) s)
  unfolding socket_parse_cursor check_size
  parsed =
      let long : ltb (length bytes) 13 ≡ false = ground (arith, size) in
      let e : (length bytes == (13 + 4 * word16 bytes 1 * word16 bytes 3) % 2 ^ 32) ≡ true =
        ground (arith, size, small) in
      rw (long, e, inside) refl

  -- A cursor reply whose length fits its size, below 2 ^ 32 bytes, is accepted, whatever is behind
  -- it in memory; the cursor has at most 32 rows and columns; and each of its pixels is one of the
  -- message, at an index below the number of its pixels.
  pub socket_parse_cursor-inside :
      y < (cursor_of bytes).height
      → x < (cursor_of bytes).width
      → (socket_parse_cursor (record { bytes = bytes; behind = behind }) s
          ≡ (true, keep_cursor (cursor_of bytes) s))
        × ((cursor_of bytes).width ≤ 32)
        × ((cursor_of bytes).height ≤ 32)
        × (source_index (scale_of (word16 bytes 1) (word16 bytes 3)) (cursor_of bytes).width y x
            < word16 bytes 1 * word16 bytes 3)
        × (get_or (cursor_of bytes).pixels (y * (cursor_of bytes).width + x) 0
            ≡ pixel_of bytes (
                source_index
                  (scale_of (word16 bytes 1) (word16 bytes 3))
                  (cursor_of bytes).width
                  y
                  x))
  socket_parse_cursor-inside hy hx =
      let width = word16 bytes 1 in
      let height = word16 bytes 3 in
      let scale = scale_of width height in
      let (pos, w, h) = scale_of-Fits width height narrow low in
      (
        parsed,
        w,
        h,
        index_lt width height scale y x pos hy hx,
        rows_at (λ r c. pixel_of bytes (source_index scale (width / scale) r c)) (width / scale) 0
              (height / scale) y x hy hx
            ∙ ap (λ r. pixel_of bytes (source_index scale (width / scale) r x)) (omega arith),
      )

  -- If in addition the scale divides the width, the pixel in row y and column x is the one in row
  -- scale * y and column scale * x of the message.
  pub socket_parse_cursor-nearest :
      y < (cursor_of bytes).height
      → x < (cursor_of bytes).width
      → word16 bytes 1 % scale_of (word16 bytes 1) (word16 bytes 3) ≡ 0
      → get_or (cursor_of bytes).pixels (y * (cursor_of bytes).width + x) 0
        ≡ pixel_of bytes (
            scale_of (word16 bytes 1) (word16 bytes 3) * y * word16 bytes 1
            + scale_of (word16 bytes 1) (word16 bytes 3) * x)
  socket_parse_cursor-nearest hy hx divides =
      let width = word16 bytes 1 in
      let scale = scale_of width (word16 bytes 3) in
      let whole : scale * (width / scale) ≡ width =
        omega (arith, div-add-mod width scale, divides) in
      let e : source_index scale (width / scale) y x ≡ scale * y * width + scale * x =
        omega (arith, ap (λ t. scale * y * t) whole) in
      (socket_parse_cursor-inside hy hx).4 ∙ ap (pixel_of bytes) e
