-- ===== src/Kiwi/Keysyms.antt =====
-- Key symbols for servers of the first version: `KeyCodeToKeySym` of host-ext/nacl_src/kiwi.cc.
use chroagh.Base.{ℕ, ◌+◌, ◌-◌, ◌==◌, leb, ◌&&◌, if◌then◌else◌, Bool, List, [], ◌∷◌, text}
use chroagh.WebSocket.Message.{strings_eq}

-- The cases of the switch that do not look at the name of the key.
abbrev pub keysyms : List (ℕ × ℕ)
keysyms =
    (8, 0xff08)
    ∷ (9, 0xff09)
    ∷ (12, 0xff9d)
    ∷ (13, 0xff0d)
    ∷ (19, 0xff13)
    ∷ (20, 0)
    ∷ (27, 0xff1b)
    ∷ (32, 0x20)
    ∷ (33, 0xff55)
    ∷ (34, 0xff56)
    ∷ (35, 0xff57)
    ∷ (36, 0xff50)
    ∷ (37, 0xff51)
    ∷ (38, 0xff52)
    ∷ (39, 0xff53)
    ∷ (40, 0xff54)
    ∷ (42, 0xff61)
    ∷ (45, 0xff63)
    ∷ (46, 0xffff)
    ∷ (91, 0xffeb)
    ∷ (106, 0xffaa)
    ∷ (107, 0xffab)
    ∷ (109, 0xffad)
    ∷ (110, 0xffae)
    ∷ (111, 0xffaf)
    ∷ (144, 0xff7f)
    ∷ (145, 0xff14)
    ∷ (151, 0x1008ff95)
    ∷ (166, 0x1008ff26)
    ∷ (167, 0x1008ff27)
    ∷ (168, 0x1008ff73)
    ∷ (182, 0x1008ff51)
    ∷ (183, 0x1008ff59)
    ∷ (186, 0x3b)
    ∷ (187, 0x3d)
    ∷ (188, 0x2c)
    ∷ (189, 0x2d)
    ∷ (190, 0x2e)
    ∷ (191, 0x2f)
    ∷ (192, 0x60)
    ∷ (219, 0x5b)
    ∷ (220, 0x5c)
    ∷ (221, 0x5d)
    ∷ (222, 0x27)
    ∷ (229, 0)
    ∷ []

abbrev pub case_of : ℕ → List (ℕ × ℕ) → ℕ
case_of keycode [] = 0
case_of keycode ((k, sym) ∷ rest) = if k == keycode then sym else case_of keycode rest

abbrev pub is_between : ℕ → ℕ → ℕ → Bool
is_between low high n = leb low n && leb n high

-- Shift, Control and Alt have a key on either side.
abbrev pub side : List ℕ → List ℕ → ℕ → ℕ → ℕ
side right name right_sym left_sym = if strings_eq name right then right_sym else left_sym

unfoldable pub key_code_to_key_sym : ℕ → List ℕ → ℕ
key_code_to_key_sym keycode name =
    if is_between 65 90 keycode
    then keycode + 32
    else if is_between 48 57 keycode
    then keycode
    else if is_between 96 105 keycode
    then keycode - 96 + 0xffb0
    else if is_between 112 123 keycode
    then keycode - 112 + 0xffbe
    else if keycode == 16
    then side (text "ShiftRight") name 0xffe2 0xffe1
    else if keycode == 17
    then side (text "ControlRight") name 0xffe4 0xffe3
    else if keycode == 18
    then side (text "AltRight") name 0xffea 0xffe9
    else case_of keycode keysyms
