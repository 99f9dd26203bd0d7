-- ===== src/Kiwi/Keycodes/Table.antt =====
-- What the map of key codes holds.
use chroagh.Base.{
  ℕ, ◌%◌, ◌==◌, ◌≡◌, refl, sym, ap, ◌∙◌, inl, inr, Bool-cases, not, ◌&&◌, ◌||◌, Bool, true, false,
  List, [], ◌∷◌, text, arith,
}
use chroagh.WebSocket.Message.{strings_eq}
use chroagh.WebSocket.Handshake.Meaning.{strings_eq_sound}
use chroagh.Kiwi.Keycodes.{KeyCode, strcodemap, find, found_code, get_code}

-- A test of all codes but those of a name.
abbrev others_pass : (ℕ → Bool) → List ℕ → List (List ℕ × KeyCode) → Bool
others_pass test except [] = true
others_pass test except ((n, k) ∷ rest) =
    (test k.base || strings_eq n except) && others_pass test except rest

module _ (test : ℕ → Bool) (except : List ℕ) (unknown : test 0 ≡ true) where
  found_passes :
      (name : List ℕ) (l : List (List ℕ × KeyCode))
      → strings_eq name except ≡ false
      → others_pass test except l ≡ true
      → test (found_code false (find name l)) ≡ true
  found_passes name [] differs all = unknown
  found_passes name ((n, k) ∷ rest) differs all = elim (Bool-cases (strings_eq n name)) [
    | inr e ↦ rw e (found_passes name rest differs (ground arith))
    | inl e ↦
        let apart : strings_eq n except ≡ false =
          ap (λ m. strings_eq m except) (strings_eq_sound n name e) ∙ differs in
        rw e (ground arith)
  ]

-- The code of the Search key, by which the extension presses Super_L.
abbrev pub super_code : ℕ
super_code = 0x85

pub get_code-super : get_code (text "OSLeft") false ≡ super_code
unfolding get_code
get_code-super = refl

not-true_lem : (b : Bool) → not b ≡ true → b ≡ false
not-true_lem true h = sym h
not-true_lem false h = refl

abbrev is_other : ℕ → Bool
is_other code = not (code % 256 == super_code)

-- No other key has the code of the Search key.
pub get_code-other :
    (name : List ℕ)
    → strings_eq name (text "OSLeft") ≡ false
    → (get_code name false % 256 == super_code) ≡ false
unfolding get_code
get_code-other name differs =
    not-true_lem _ (found_passes is_other (text "OSLeft") refl name strcodemap differs refl)
