-- ===== src/Examples/Windows.antt =====
-- `listMapped` and `raiseWindow` of src/wmtools.c at concrete inputs.
use chroagh.Wm.Listing.{Screen, hexadecimal, starred, newline, list_mapped}
use chroagh.Wm.Listing.Order.{list_mapped_lem}
use chroagh.Base.{none, ◌==◌, not, ◌≡◌, refl, some, [], ◌∷◌, arith}
use chroagh.Wm.Raise.{Attributes, Server, unmap, restack, map_window, move_resize, raise_window}
use chroagh.Wm.Raise.Raising.{raise_window_lem}

abbrev screen : Attributes
screen = record { x = 0; y = 0; width = 1366; height = 768 }

-- The windows 10 to 50 from back to front.
abbrev server : Server
server = record { query_tree = some (10 ∷ 20 ∷ 30 ∷ 40 ∷ 50 ∷ []); attributes = some screen }

raise_window_lem_example : raise_window server 30 ≡ (
  0,
  unmap 50
      ∷ restack (30 ∷ 20 ∷ 10 ∷ 50 ∷ 40 ∷ [])
      ∷ map_window 50
      ∷ move_resize 30 0 0 1365 768
      ∷ move_resize 30 0 0 1366 768
      ∷ [],
)
raise_window_lem_example =
    raise_window_lem 30 (10 ∷ 20 ∷ []) (40 ∷ 50 ∷ []) (omega arith) server screen refl refl
      (omega arith)

-- The window 40 is not viewable.
abbrev shown : Screen
shown = record {
  query_tree = some (10 ∷ 40 ∷ 30 ∷ 40 ∷ []);
  viewable = λ w. not (w == 40);
  fetch_name = λ w. none;
}

list_mapped_lem_example :
    list_mapped (b'm' ∷ []) shown ≡ (0, hexadecimal 30 ∷ starred ∷ hexadecimal 10 ∷ newline ∷ [])
list_mapped_lem_example = list_mapped_lem (b'm' ∷ []) shown (10 ∷ 40 ∷ 30 ∷ 40 ∷ []) refl
