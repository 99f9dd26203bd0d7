-- ===== src/Kiwi/Keycodes.antt =====
-- The key codes of host-ext/nacl_src/keycode_converter.h.
pub mod Table
use chroagh.Base.{ℕ, if◌then◌else◌, Bool, Option, none, some, List, [], ◌∷◌, text}
use chroagh.WebSocket.Message.{strings_eq}

-- The code without and with the Search key.
pub record KeyCode : Type 0 where
  pub base : ℕ
  pub search : ℕ

abbrev pub key_code : ℕ → KeyCode
key_code base = record { base = base; search = base }

abbrev pub code_of : Bool → KeyCode → ℕ
code_of search_on k = if search_on then k.search else k.base

-- The map from the names of keys.
abbrev pub strcodemap : List (List ℕ × KeyCode)
strcodemap =
    (text "Sleep", key_code 0x96)
    ∷ (text "WakeUp", key_code 0x97)
    ∷ (text "KeyA", key_code 0x26)
    ∷ (text "KeyB", key_code 0x38)
    ∷ (text "KeyC", key_code 0x36)
    ∷ (text "KeyD", key_code 0x28)
    ∷ (text "KeyE", key_code 0x1a)
    ∷ (text "KeyF", key_code 0x29)
    ∷ (text "KeyG", key_code 0x2a)
    ∷ (text "KeyH", key_code 0x2b)
    ∷ (text "KeyI", key_code 0x1f)
    ∷ (text "KeyJ", key_code 0x2c)
    ∷ (text "KeyK", key_code 0x2d)
    ∷ (text "KeyL", key_code 0x2e)
    ∷ (text "KeyM", key_code 0x3a)
    ∷ (text "KeyN", key_code 0x39)
    ∷ (text "KeyO", key_code 0x20)
    ∷ (text "KeyP", key_code 0x21)
    ∷ (text "KeyQ", key_code 0x18)
    ∷ (text "KeyR", key_code 0x1b)
    ∷ (text "KeyS", key_code 0x27)
    ∷ (text "KeyT", key_code 0x1c)
    ∷ (text "KeyU", key_code 0x1e)
    ∷ (text "KeyV", key_code 0x37)
    ∷ (text "KeyW", key_code 0x19)
    ∷ (text "KeyX", key_code 0x35)
    ∷ (text "KeyY", key_code 0x1d)
    ∷ (text "KeyZ", key_code 0x34)
    ∷ (text "Digit1", key_code 0x0a)
    ∷ (text "Digit2", key_code 0x0b)
    ∷ (text "Digit3", key_code 0x0c)
    ∷ (text "Digit4", key_code 0x0d)
    ∷ (text "Digit5", key_code 0x0e)
    ∷ (text "Digit6", key_code 0x0f)
    ∷ (text "Digit7", key_code 0x10)
    ∷ (text "Digit8", key_code 0x11)
    ∷ (text "Digit9", key_code 0x12)
    ∷ (text "Digit0", key_code 0x13)
    ∷ (text "Enter", key_code 0x24)
    ∷ (text "Escape", key_code 0x09)
    ∷ (text "Backspace", key_code 0x16)
    ∷ (text "Tab", key_code 0x17)
    ∷ (text "Space", key_code 0x41)
    ∷ (text "Minus", key_code 0x14)
    ∷ (text "Equal", key_code 0x15)
    ∷ (text "BracketLeft", key_code 0x22)
    ∷ (text "BracketRight", key_code 0x23)
    ∷ (text "Backslash", key_code 0x33)
    ∷ (text "IntlHash", key_code 0x33)
    ∷ (text "Semicolon", key_code 0x2f)
    ∷ (text "Quote", key_code 0x30)
    ∷ (text "Backquote", key_code 0x31)
    ∷ (text "Comma", key_code 0x3b)
    ∷ (text "Period", key_code 0x3c)
    ∷ (text "Slash", key_code 0x3d)
    ∷ (text "CapsLock", key_code 0x42)
    ∷ (text "F1", key_code 0x43)
    ∷ (text "F2", key_code 0x44)
    ∷ (text "F3", key_code 0x45)
    ∷ (text "F4", key_code 0x46)
    ∷ (text "F5", key_code 0x47)
    ∷ (text "F6", key_code 0x48)
    ∷ (text "F7", key_code 0x49)
    ∷ (text "F8", key_code 0x4a)
    ∷ (text "F9", key_code 0x4b)
    ∷ (text "F10", key_code 0x4c)
    ∷ (text "F11", key_code 0x5f)
    ∷ (text "F12", key_code 0x60)
    ∷ (text "PrintScreen", key_code 0x6b)
    ∷ (text "ScrollLock", key_code 0x4e)
    ∷ (text "Pause", key_code 0x7f)
    ∷ (text "Insert", key_code 0x76)
    ∷ (text "Home", key_code 0x6e)
    ∷ (text "PageUp", key_code 0x70)
    ∷ (text "Delete", key_code 0x77)
    ∷ (text "End", key_code 0x73)
    ∷ (text "PageDown", key_code 0x75)
    ∷ (text "ArrowRight", key_code 0x72)
    ∷ (text "ArrowLeft", key_code 0x71)
    ∷ (text "ArrowDown", key_code 0x74)
    ∷ (text "ArrowUp", key_code 0x6f)
    ∷ (text "NumLock", key_code 0x4d)
    ∷ (text "NumpadDivide", key_code 0x6a)
    ∷ (text "NumpadMultiply", key_code 0x3f)
    ∷ (text "NumpadSubtract", key_code 0x52)
    ∷ (text "NumpadAdd", key_code 0x56)
    ∷ (text "NumpadEnter", key_code 0x68)
    ∷ (text "Numpad1", key_code 0x57)
    ∷ (text "Numpad2", key_code 0x58)
    ∷ (text "Numpad3", key_code 0x59)
    ∷ (text "Numpad4", key_code 0x53)
    ∷ (text "Numpad5", key_code 0x54)
    ∷ (text "Numpad6", key_code 0x55)
    ∷ (text "Numpad7", key_code 0x4f)
    ∷ (text "Numpad8", key_code 0x50)
    ∷ (text "Numpad9", key_code 0x51)
    ∷ (text "Numpad0", key_code 0x5a)
    ∷ (text "NumpadDecimal", key_code 0x5b)
    ∷ (text "IntlBackslash", key_code 0x5e)
    ∷ (text "ContextMenu", key_code 0x87)
    ∷ (text "Power", key_code 0x7c)
    ∷ (text "NumpadEqual", key_code 0x7d)
    ∷ (text "Help", key_code 0x92)
    ∷ (text "Again", key_code 0x89)
    ∷ (text "Undo", key_code 0x8b)
    ∷ (text "Cut", key_code 0x91)
    ∷ (text "Copy", key_code 0x8d)
    ∷ (text "Paste", key_code 0x8f)
    ∷ (text "Find", key_code 0x90)
    ∷ (text "VolumeMute", key_code 0x79)
    ∷ (text "VolumeUp", key_code 0x7b)
    ∷ (text "VolumeDown", key_code 0x7a)
    ∷ (text "IntlRo", key_code 0x61)
    ∷ (text "KanaMode", key_code 0x65)
    ∷ (text "IntlYen", key_code 0x84)
    ∷ (text "Convert", key_code 0x64)
    ∷ (text "NonConvert", key_code 0x66)
    ∷ (text "Lang1", key_code 0x82)
    ∷ (text "Lang2", key_code 0x83)
    ∷ (text "Lang3", key_code 0x62)
    ∷ (text "Lang4", key_code 0x63)
    ∷ (text "Abort", key_code 0x88)
    ∷ (text "NumpadParenLeft", key_code 0xbb)
    ∷ (text "NumpadParenRight", key_code 0xbc)
    ∷ (text "ControlLeft", key_code 0x25)
    ∷ (text "ShiftLeft", key_code 0x32)
    ∷ (text "AltLeft", key_code 0x40)
    ∷ (text "OSLeft", key_code 0x85)
    ∷ (text "ControlRight", key_code 0x69)
    ∷ (text "ShiftRight", key_code 0x3e)
    ∷ (text "AltRight", key_code 0x6c)
    ∷ (text "OSRight", key_code 0x86)
    ∷ (text "BrightnessUp", key_code 0xe9)
    ∷ (text "BrightnessDown", key_code 0xea)
    ∷ (text "LaunchApp2", key_code 0x94)
    ∷ (text "LaunchApp1", key_code 0xa5)
    ∷ (text "BrowserBack", key_code 0xa6)
    ∷ (text "BrowserForward", key_code 0xa7)
    ∷ (text "BrowserRefresh", key_code 0xb5)
    ∷ (text "BrowserFavorites", key_code 0xa4)
    ∷ (text "MailReply", key_code 0xf0)
    ∷ (text "MailForward", key_code 0xf1)
    ∷ (text "MailSend", key_code 0xef)
    ∷ []

abbrev pub find : List ℕ → List (List ℕ × KeyCode) → Option KeyCode
find name [] = none
find name ((n, k) ∷ rest) = if strings_eq n name then some k else find name rest

abbrev pub found_code : Bool → Option KeyCode → ℕ
found_code search_on none = 0
found_code search_on (some k) = code_of search_on k

unfoldable pub get_code : List ℕ → Bool → ℕ
get_code name search_on = found_code search_on (find name strcodemap)
