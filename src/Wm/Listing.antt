-- ===== src/Wm/Listing.antt =====
-- `listMapped` of src/wmtools.c.
pub mod Order
use chroagh.Base.{
  ℕ, zero, suc, ◌==◌, ◌&&◌, ◌||◌, if◌then◌else◌, Bool, true, false, Option, none, some, List, [],
  ◌∷◌, ◌++◌, get_or, length,
}

-- What goes to the standard output: a name or "Unknown ", a window in decimal or in hexadecimal,
-- the end of the line with or without a star.
pub data Output : Type 0 where
  name : List ℕ → Output
  unknown : Output
  decimal : ℕ → Output
  hexadecimal : ℕ → Output
  starred : Output
  newline : Output

-- What the X server answers: `query_tree` is `none` if the call fails, and then an empty list stands
-- for a null pointer; a window is viewable if its attributes can be read and say so; `fetch_name`
-- is `none` if the call fails or yields no name.
pub record Screen : Type 0 where
  pub query_tree : Option (List ℕ)
  pub viewable : ℕ → Bool
  pub fetch_name : ℕ → Option (List ℕ)

-- `strchr(arg, c) != NULL`
abbrev pub has_letter : ℕ → List ℕ → Bool
has_letter c [] = false
has_letter c (x ∷ xs) = (x == c) || has_letter c xs

-- The options, without `mark`, which the loop changes.
pub record Options : Type 0 where
  pub one : Bool
  pub asints : Bool
  pub names : Bool

abbrev pub name_of : Option (List ℕ) → Output
name_of none = unknown
name_of (some n) = name n

-- One line.
abbrev pub print_line : Options → Screen → Bool → ℕ → List Output
print_line o screen mark window =
    (if o.names then name_of (screen.fetch_name window) ∷ [] else [])
    ++ ((if o.asints then decimal window else hexadecimal window)
        ∷ (if mark then starred else newline)
        ∷ [])

-- `while (nchildren--)`, with `nchildren` before the test.
unfoldable pub list_loop : ℕ → List ℕ → Options → Screen → Bool → List Output
list_loop zero children o screen mark = []
list_loop (suc nchildren) children o screen mark =
    let window = get_or children nchildren 0 in
    let rest = list_loop nchildren children o screen in
    elim (screen.viewable window) [
      | false ↦ rest mark
      | true ↦ print_line o screen mark window ++ (if o.one then [] else rest false)
    ]

-- The returned status and the output.
unfoldable pub list_mapped : List ℕ → Screen → ℕ × List Output
list_mapped arg screen =
    let o : Options = record {
      one = has_letter b'1' arg;
      asints = has_letter b'i' arg;
      names = has_letter b'n' arg;
    } in
    elim screen.query_tree [
      | none ↦ (1, [])
      | some children ↦ (0, list_loop (length children) children o screen (has_letter b'm' arg))
    ]
