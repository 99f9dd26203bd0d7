-- ===== src/FbServer/Keys.antt =====
-- The pressed keys and mouse buttons of src/fbserver.c: `kb_add`, `kb_remove` and `kb_release_all`.
pub mod Set
pub mod Removal
pub mod History
use chroagh.Base.{
  ℕ, zero, suc, ◌+◌, ◌-◌, ◌==◌, ltb, if◌then◌else◌, Bool, true, false, ◌&&◌, List, [], ◌∷◌, ◌++◌,
  length, set, get_or, take, M, done, aborted,
}

pub data KeyButtonType : Type 0 where
  mouse : KeyButtonType
  keyboard : KeyButtonType

pub record KeyButton : Type 0 where
  pub type : KeyButtonType
  pub code : ℕ

-- The events sent to the X server: the release of a button or of a key.
pub data Release : Type 0 where
  button : ℕ → Release
  key : ℕ → Release

-- `pressed` holds the first `pressed_len` entries of the array; `events` has the newest event first.
pub record Keys : Type 0 where
  pub pressed : List KeyButton
  pub events : List Release

-- The size of the array.
abbrev pub capacity : ℕ
capacity = 256

abbrev pub type_eq : KeyButtonType → KeyButtonType → Bool
type_eq mouse mouse = true
type_eq mouse keyboard = false
type_eq keyboard mouse = false
type_eq keyboard keyboard = true

-- `pressed[i].type == type && pressed[i].code == code`
abbrev pub is_key : KeyButton → KeyButton → Bool
is_key a b = type_eq a.type b.type && (a.code == b.code)

-- The loop of `kb_add` from an entry on: is the key there?
unfoldable pub find_pressed : KeyButton → List KeyButton → Bool
find_pressed k [] = false
find_pressed k (p ∷ ps) = if is_key p k then true else find_pressed k ps

unfoldable pub kb_add : KeyButton → M Keys (Unit {0})
kb_add k s =
    if ltb (length s.pressed) capacity
    then done
        (tt, (if find_pressed k s.pressed then s else record s { pressed = s.pressed ++ (k ∷ []) }))
    else aborted

-- Entry `i` is given up: the last entry takes its place.
unfoldable pub remove_at : ℕ → List KeyButton → KeyButton → List KeyButton
remove_at i pressed k =
    let last = length pressed - 1 in
    take last (if ltb i last then set pressed i (get_or pressed last k) else pressed)

-- The loop of `kb_remove` at `i`, with the entries from `i` on.
unfoldable pub remove_loop : ℕ → KeyButton → List KeyButton → List KeyButton → List KeyButton
remove_loop i k [] pressed = pressed
remove_loop i k (p ∷ ps) pressed =
    if is_key p k then remove_at i pressed k else remove_loop (i + 1) k ps pressed

unfoldable pub kb_remove : KeyButton → M Keys (Unit {0})
kb_remove k s = done (tt, record s { pressed = remove_loop 0 k s.pressed s.pressed })

abbrev pub release : KeyButton → Release
release k = elim k.type [ mouse ↦ button k.code | keyboard ↦ key k.code ]

-- The loop of `kb_release_all`.
unfoldable pub release_loop : List KeyButton → List Release → List Release
release_loop [] events = events
release_loop (p ∷ ps) events = release_loop ps (release p ∷ events)

unfoldable pub kb_release_all : M Keys (Unit {0})
kb_release_all s = done (tt, record s { pressed = []; events = release_loop s.pressed s.events })
