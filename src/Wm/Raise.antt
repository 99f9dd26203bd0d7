-- ===== src/Wm/Raise.antt =====
-- `raiseWindow` of src/wmtools.c.
pub mod Order
pub mod Raising
use chroagh.Base.{
  ℕ, zero, suc, ◌+◌, ◌-◌, ◌%◌, ltb, ◌==◌, if◌then◌else◌, Option, none, some, List, [], ◌∷◌, ◌++◌,
  true, false, length, set, get_or, replicate,
}

-- The attributes of the root window that the function reads.
pub record Attributes : Type 0 where
  pub x : ℕ
  pub y : ℕ
  pub width : ℕ
  pub height : ℕ

pub data Request : Type 0 where
  unmap : ℕ → Request
  restack : List ℕ → Request
  map_window : ℕ → Request
  move_resize : ℕ → ℕ → ℕ → ℕ → ℕ → Request

-- What the X server answers: `query_tree` is `none` if the call fails; an empty list stands for a
-- null pointer. `attributes` is `none` if the call fails.
pub record Server : Type 0 where
  pub query_tree : Option (List ℕ)
  pub attributes : Option Attributes

-- `for (rotate = 0; rotate < nchildren; ++rotate) if (children[nchildren-1 - rotate] == window)
-- break;` with `left` rounds to go.
unfoldable pub find_rotate : ℕ → ℕ → List ℕ → ℕ → ℕ
find_rotate zero rotate children window = rotate
find_rotate (suc left) rotate children window =
    elim (get_or children (length children - 1 - rotate) 0 == window) [
      | true ↦ rotate
      | false ↦ find_rotate left (rotate + 1) children window
    ]

-- The loop over the children from index `i` on that fills `neworder`.
unfoldable pub fill_order : ℕ → ℕ → ℕ → List ℕ → List ℕ → List ℕ
fill_order i n rotate [] neworder = neworder
fill_order i n rotate (c ∷ children) neworder =
    fill_order (i + 1) n rotate children (set neworder (n - 1 - (i + rotate) % n) c)

unfoldable pub new_order : ℕ → List ℕ → List ℕ
new_order rotate children =
    fill_order 0 (length children) rotate children (replicate (length children) 0)

-- The last part: a refresh of the window.
unfoldable pub refresh : Server → ℕ → List Request → ℕ × List Request
refresh server window requests = elim server.attributes [
  | none ↦ (1, requests)
  | some a ↦ (
    0,
    requests
        ++ (move_resize window a.x a.y (a.width - 1) a.height
            ∷ move_resize window a.x a.y a.width a.height
            ∷ []),
  )
]

-- With the children at hand.
unfoldable pub raise_children : Server → ℕ → List ℕ → ℕ × List Request
raise_children server window children =
    let n = length children in
    let rotate = find_rotate n 0 children window in
    if rotate == n
    then (2, [])
    else (let top = get_or children (n - 1) 0 in
        refresh server window (
          if ltb 0 rotate
          then unmap top ∷ restack (new_order rotate children) ∷ map_window top ∷ []
          else []))

-- The returned status and the requests.
unfoldable pub raise_window : Server → ℕ → ℕ × List Request
raise_window server window = elim server.query_tree [
  | none ↦ (1, [])
  | some [] ↦ (2, [])
  | some (c ∷ cs) ↦ raise_children server window (c ∷ cs)
]
