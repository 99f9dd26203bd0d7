-- ===== src/WebSocket/Handshake/Meaning.antt =====
-- What the fields of a header say, one by one.
use chroagh.Base.{
  ℕ, ◌+◌, ◌≤◌, not, ◌≡◌, ◌==◌, ==_iff, refl, ap, ◌∙◌, inl, inr, ◌&&◌, ◌||◌, Bool-cases,
  if◌then◌else◌, Bool, true, some, List, [], ◌∷◌, ◌++◌, arith, length, text, decimal,
}
use chroagh.WebSocket.Message.{strings_eq}
use chroagh.WebSocket.Header.{Seen, Parser, header_field}

pub record Field : Type 0 where
  pub name : List ℕ
  pub value : List ℕ

-- A line of the header, before `more`.
abbrev pub field_text : Field → List ℕ → List ℕ
field_text f more = f.name ++ (b':' ∷ ((b' ' ∷ f.value) ++ (b'\r' ∷ b'\n' ∷ more)))

abbrev pub name_byte : ℕ → Bool
name_byte c = not (c == 0) && not (c == b'\n') && not (c == b':')

abbrev pub value_byte : ℕ → Bool
value_byte c = not (c == 0) && not (c == b'\n')

abbrev pub all : (ℕ → Bool) → List ℕ → Bool
all test [] = true
all test (c ∷ cs) = test c && all test cs

-- A field that is a line of C strings, and fits the buffer.
pub record IsField (f : Field) : Type 0 where
  pub name_text : all name_byte f.name ≡ true
  pub value_text : all value_byte f.value ≡ true
  pub fits : length f.name + length f.value + 4 ≤ 4096

-- Each bit stands for a field with a certain name and, but for `sec_version`, a certain value.
abbrev pub says : List ℕ → List ℕ → Field → Bool
says name value f = strings_eq f.name name && strings_eq f.value value

abbrev pub has_key : Field → Bool
has_key f = strings_eq f.name (text "Sec-WebSocket-Key") && (length f.value == 24)

abbrev pub seen_with : ℕ → Field → Seen → Seen
seen_with port f ok = record ok {
  upgrade = says (text "Upgrade") (text "websocket") f || ok.upgrade;
  connection = says (text "Connection") (text "Upgrade") f || ok.connection;
  sec_version = strings_eq f.name (text "Sec-WebSocket-Version") || ok.sec_version;
  version = says (text "Sec-WebSocket-Version") (text "13") f || ok.version;
  sec_key = has_key f || ok.sec_key;
  host = says (text "Host") (text "localhost:" ++ decimal port) f || ok.host;
}

abbrev pub key_with : Field → List ℕ → List ℕ
key_with f key = if has_key f then f.value else key

-- All fields of a header after a good first line, and the key in the last field that has one.
abbrev pub seen_in : ℕ → List Field → Seen → Seen
seen_in port [] ok = ok
seen_in port (f ∷ fs) ok = seen_in port fs (seen_with port f ok)

abbrev pub key_in : List Field → List ℕ → List ℕ
key_in [] key = key
key_in (f ∷ fs) key = key_in fs (key_with f key)

pub strings_eq_sound : (a b : List ℕ) → strings_eq a b ≡ true → a ≡ b
strings_eq_sound [] [] e = refl
strings_eq_sound [] (y ∷ b) e = ground arith
strings_eq_sound (x ∷ a) [] e = ground arith
strings_eq_sound (x ∷ a) (y ∷ b) e = elim (Bool-cases (x == y)) [
  | inl s ↦
      let tail : strings_eq a b ≡ true = rw⁻¹ e (rw s refl) in
      ap (λ z. z ∷ a) ((==_iff x y).0 s) ∙ ap (λ t. y ∷ t) (strings_eq_sound a b tail)
  | inr s ↦ absurd (ground (arith, e))
]

module _ (port : ℕ) (value : List ℕ) (p : Parser) where
  abbrev field : List ℕ → Field
  field name = record { name = name; value = value }

  HasEffect : List ℕ → Type 0
  HasEffect name =
      header_field port name (some value) p
      ≡ some (record p {
        ok = seen_with port (field name) p.ok;
        websocket_key = key_with (field name) p.websocket_key;
      })

  upgrade_effect : HasEffect (text "Upgrade")
  unfolding header_field HasEffect
  upgrade_effect = elim (Bool-cases (strings_eq value (text "websocket"))) [
    | inl e ↦ rw e refl
    | inr e ↦ rw e refl
  ]

  connection_effect : HasEffect (text "Connection")
  unfolding header_field HasEffect
  connection_effect = elim (Bool-cases (strings_eq value (text "Upgrade"))) [
    | inl e ↦ rw e refl
    | inr e ↦ rw e refl
  ]

  version_effect : HasEffect (text "Sec-WebSocket-Version")
  unfolding header_field HasEffect
  version_effect = elim (Bool-cases (strings_eq value (text "13"))) [
    | inl e ↦ rw e refl
    | inr e ↦ rw e refl
  ]

  key_effect : HasEffect (text "Sec-WebSocket-Key")
  unfolding header_field HasEffect
  key_effect = elim (Bool-cases (length value == 24)) [ inl e ↦ rw e refl | inr e ↦ rw e refl ]

  host_effect : HasEffect (text "Host")
  unfolding header_field HasEffect
  host_effect = elim (Bool-cases (strings_eq value (text "localhost:" ++ decimal port))) [
    | inl e ↦ rw e refl
    | inr e ↦ rw e refl
  ]

  same_effect :
      (name expected : List ℕ)
      → strings_eq name expected ≡ true
      → HasEffect expected
      → HasEffect name
  same_effect name expected e h = rw (strings_eq_sound name expected e) h

  effect : (name : List ℕ) → HasEffect name
  effect name = elim (Bool-cases (strings_eq name (text "Upgrade"))) [
    | inl e ↦ same_effect name (text "Upgrade") e upgrade_effect
    | inr e1 ↦ elim (Bool-cases (strings_eq name (text "Connection"))) [
      | inl e ↦ same_effect name (text "Connection") e connection_effect
      | inr e2 ↦ elim (Bool-cases (strings_eq name (text "Sec-WebSocket-Version"))) [
        | inl e ↦ same_effect name (text "Sec-WebSocket-Version") e version_effect
        | inr e3 ↦ elim (Bool-cases (strings_eq name (text "Sec-WebSocket-Key"))) [
          | inl e ↦ same_effect name (text "Sec-WebSocket-Key") e key_effect
          | inr e4 ↦ elim (Bool-cases (strings_eq name (text "Host"))) [
            | inl e ↦ same_effect name (text "Host") e host_effect
            | inr e5 ↦ unfold header_field in unfold HasEffect in rw (e1, e2, e3, e4, e5) refl
          ]
        ]
      ]
    ]
  ]

-- A field has the effect on `ok` and on the key that its name and value say, and no other.
pub header_field_lem :
    (port : ℕ) (f : Field) (p : Parser)
    → header_field port f.name (some f.value) p
      ≡ some (record p { ok = seen_with port f p.ok; websocket_key = key_with f p.websocket_key })
unfolding HasEffect
header_field_lem port f p = effect port f.value p f.name
