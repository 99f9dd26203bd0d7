-- ===== src/Wm/Raise/Raising.antt =====
-- `raiseWindow` as a whole: what it asks the X server for.
use native.Mathlib.Decide.{dec_lt}
use mathlib.Core.List.{reverse-append}
use chroagh.Base.{
  ℕ, zero, suc, ◌+◌, ◌-◌, ◌≤◌, ◌<◌, ◌≡◌, ◌≢◌, sym, ap, ◌∙◌, true, false, ltb, lt→ltb, ◌==◌, ==_refl,
  some, List, [], ◌∷◌, ◌++◌, arith, length, get_or, reverse, length-append, append_assoc,
}
use chroagh.Wm.Raise.{
  Attributes, Request, unmap, restack, map_window, move_resize, Server, find_rotate, new_order,
  refresh, raise_children, raise_window,
}
use chroagh.Wm.Raise.Order.{new_order-rotation}

abbrev pub NotIn : ℕ → List ℕ → Type 0
NotIn w [] = Unit
NotIn w (x ∷ xs) = (x ≢ w) × NotIn w xs

get_or-NotIn : (w d : ℕ) (xs : List ℕ) (i : ℕ) → NotIn w xs → i < length xs → get_or xs i d ≢ w
get_or-NotIn w d [] i h lt = absurd (omega arith)
get_or-NotIn w d (x ∷ xs) zero h lt = h.0
get_or-NotIn w d (x ∷ xs) (suc i) h lt = get_or-NotIn w d xs i h.1 (omega arith)

get_or-append_ge :
    (xs ys : List ℕ) (i d : ℕ) → length xs ≤ i → get_or (xs ++ ys) i d ≡ get_or ys (i - length xs) d
get_or-append_ge [] ys i d h = ap (λ t. get_or ys t d) (omega arith)
get_or-append_ge (x ∷ xs) ys zero d h = absurd (omega arith)
get_or-append_ge (x ∷ xs) ys (suc i) d h =
    get_or-append_ge xs ys i d (omega arith) ∙ ap (λ t. get_or ys t d) (omega arith)

find_rotate_absent :
    (left rotate window : ℕ) (children : List ℕ)
    → NotIn window children
    → left + rotate ≡ length children
    → find_rotate left rotate children window ≡ length children
unfolding find_rotate
find_rotate_absent zero rotate window children h e = omega arith
find_rotate_absent (suc left) rotate window children h e =
    let test : (get_or children (length children - 1 - rotate) 0 == window) ≡ false =
      ground
        (arith, get_or-NotIn window 0 children (length children - 1 - rotate) h (omega arith)) in
    rw (test, find_rotate) (find_rotate_absent left (rotate + 1) window children h (omega arith))

-- If the X server lists the children of the root, and the window is not among them, the status is 2
-- and no window is changed.
pub raise_window_absent :
    (server : Server) (window : ℕ) (children : List ℕ)
    → server.query_tree ≡ some children
    → NotIn window children
    → raise_window server window ≡ (2, [])
unfolding raise_window raise_children
raise_window_absent server window [] e h = rw e
raise_window_absent server window (c ∷ cs) e h = rw e (
    rw (
      find_rotate_absent (length (c ∷ cs)) 0 window (c ∷ cs) h (omega arith),
      ==_refl (length (c ∷ cs)),
    ))

-- A root window with children: the search goes on.
raise_window_children :
    (server : Server) (window : ℕ) (children : List ℕ)
    → server.query_tree ≡ some children
    → 0 < length children
    → raise_window server window ≡ raise_children server window children
unfolding raise_window
raise_window_children server window [] e h = absurd (omega arith)
raise_window_children server window (c ∷ cs) e h = rw e

module _ (window : ℕ) (bottom above : List ℕ) (fresh : NotIn window above) where
  abbrev stack : List ℕ
  stack = bottom ++ (window ∷ above)

  find_rotate_found :
      (left rotate : ℕ)
      → rotate ≤ length above
      → left + rotate ≡ length stack
      → find_rotate left rotate stack window ≡ length above
  unfolding find_rotate
  find_rotate_found zero rotate h e = absurd (omega (arith, length-append bottom (window ∷ above)))
  find_rotate_found (suc left) rotate h e =
      let len = length-append bottom (window ∷ above) in
      let at = get_or-append_ge bottom (window ∷ above) (length stack - 1 - rotate) 0 in
      elim (dec_lt rotate (length above)) [
        | yes p ↦
            let place : length stack - 1 - rotate - length bottom
                ≡ suc (length above - 1 - rotate) =
              omega (arith, len) in
            let read : get_or stack (length stack - 1 - rotate) 0
                ≡ get_or above (length above - 1 - rotate) 0 =
              at (omega (arith, len)) ∙ ap (λ t. get_or (window ∷ above) t 0) place in
            let test : (get_or stack (length stack - 1 - rotate) 0 == window) ≡ false = ground (
              arith,
              read,
              get_or-NotIn window 0 above (length above - 1 - rotate) fresh (omega arith),
            ) in
            rw (test, find_rotate) (find_rotate_found left (rotate + 1) (omega arith) (omega arith))
        | no p ↦
            let place : length stack - 1 - rotate - length bottom ≡ 0 = omega (arith, len) in
            let read : get_or stack (length stack - 1 - rotate) 0 ≡ window =
              at (omega (arith, len)) ∙ ap (λ t. get_or (window ∷ above) t 0) place in
            let test : (get_or stack (length stack - 1 - rotate) 0 == window) ≡ true =
              ground (arith, read) in
            rw (test, find_rotate) (omega arith)
      ]

  -- The order handed to the X server.
  raised_order : new_order (length above) stack ≡ window ∷ (reverse bottom ++ reverse above)
  raised_order =
      ap (new_order (length above)) (sym (append_assoc bottom (window ∷ []) above))
      ∙ new_order-rotation (bottom ++ (window ∷ [])) above
          (omega (arith, length-append bottom (window ∷ [])))
      ∙ reverse-append above (bottom ++ (window ∷ []))
      ∙ ap (λ t. t ++ reverse above) (reverse-append bottom (window ∷ []))

  abbrev resized : Attributes → List Request
  resized a =
      move_resize window a.x a.y (a.width - 1) a.height
      ∷ move_resize window a.x a.y a.width a.height
      ∷ []

  -- If the X server answers, and the window stands among the children of the root below at least one
  -- other and once in the part from it on, the status is 0: the old top window is unmapped and mapped
  -- again around a restacking, front to back: the window, those that were below it, and last those
  -- that were above it. Then the window is given the root's place and size, at first one pixel
  -- narrower.
  pub raise_window_lem :
      (server : Server) (a : Attributes)
      → server.query_tree ≡ some stack
      → server.attributes ≡ some a
      → 0 < length above
      → raise_window server window ≡ (
        0,
        unmap (get_or above (length above - 1) 0)
            ∷ restack (window ∷ (reverse bottom ++ reverse above))
            ∷ map_window (get_or above (length above - 1) 0)
            ∷ resized a,
      )
  unfolding raise_children refresh
  raise_window_lem server a e f h =
      let len = length-append bottom (window ∷ above) in
      let found = find_rotate_found (length stack) 0 (omega arith) (omega arith) in
      let inner : (length above == length stack) ≡ false = ground (arith, len) in
      let moved : ltb 0 (length above) ≡ true = lt→ltb 0 (length above) h in
      let at_top : length stack - 1 - length bottom ≡ suc (length above - 1) = omega (arith, len) in
      let top : get_or stack (length stack - 1) 0 ≡ get_or above (length above - 1) 0 =
        get_or-append_ge bottom (window ∷ above) (length stack - 1) 0 (omega (arith, len))
        ∙ ap (λ t. get_or (window ∷ above) t 0) at_top in
      raise_window_children server window stack e (omega (arith, len))
      ∙ rw (found, inner, moved, f, top, raised_order)
