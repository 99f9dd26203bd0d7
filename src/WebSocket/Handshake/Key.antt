-- ===== src/WebSocket/Handshake/Key.antt =====
-- The key is in place once `ok` says that it was seen.
use chroagh.Base.{
  ℕ, not, List-cases, ◌≡◌, ◌==◌, ==_iff, refl, sym, ◌∙◌, inl, inr, ◌&&◌, Bool-cases, Bool, true,
  false, Option, none, some, List, [], ◌++◌, arith, length, text, decimal, ◌++◌, drop,
}
use chroagh.WebSocket.Message.{c_string, strings_eq}
use chroagh.WebSocket.Handshake.{
  ended_string, Byte, goes_on, line_ends, outside, end_line, take_byte, next_byte, Verdict,
  next_line, header_ends, invalid, unended, checked_field, use_line, is_none,
}
use chroagh.WebSocket.Header.{
  Seen, all_seen, Parser, request_line, seckey_len, set_if, set_key, with_ok, header_field, word_is,
  next_words, words, same_text,
}

unfoldable pub HasKey : Parser → Type 0
HasKey p = p.ok.sec_key ≡ true → length p.websocket_key ≡ 24

unfoldable pub ByteHasKey : Byte → Type 0
ByteHasKey (goes_on q) = HasKey q
ByteHasKey (line_ends q) = HasKey q
ByteHasKey outside = Unit

end_line-HasKey : (p : Parser) (rest : List ℕ) → HasKey p → ByteHasKey (end_line p rest)
unfolding HasKey ByteHasKey
end_line-HasKey p rest h = elim (Bool-cases ((length p.line == 0) && (p.key_at == 0))) [
  | inl e ↦ rw e tt
  | inr e ↦ rw e h
]

take_byte-HasKey : (p : Parser) (c : ℕ) (rest : List ℕ) → HasKey p → ByteHasKey (take_byte p c rest)
unfolding take_byte HasKey ByteHasKey
take_byte-HasKey p c rest h = elim (Bool-cases (c == b'\n')) [
  | inl e ↦ rw e (end_line-HasKey p rest h)
  | inr e ↦ elim (Bool-cases (not p.first && is_none p.value && (c == b':'))) [
    | inl s ↦ rw (e, s) h
    | inr s ↦ rw (e, s) h
  ]
]

pub next_byte-HasKey : (p : Parser) → HasKey p → ByteHasKey (next_byte p)
unfolding take_byte
next_byte-HasKey p h = elim (List-cases p.rest) [
  | inl e ↦ unfold ByteHasKey in rw e tt
  | inr (c, cs, e) ↦ rw e (take_byte-HasKey p c cs h)
]

FieldHasKey : Option Parser → Type 0
FieldHasKey none = Unit
FieldHasKey (some q) = HasKey q

with_ok-HasKey :
    (p : Parser) (yes' no' : Seen) (b : Option Bool)
    → HasKey p
    → yes'.sec_key ≡ p.ok.sec_key
    → no'.sec_key ≡ p.ok.sec_key
    → FieldHasKey (with_ok p (set_if yes' no' b))
unfolding FieldHasKey HasKey
with_ok-HasKey p yes' no' none h y n = tt
with_ok-HasKey p yes' no' (some true) h y n = λ s. h (sym y ∙ s)
with_ok-HasKey p yes' no' (some false) h y n = λ s. h (sym n ∙ s)

set_key-HasKey : (p : Parser) (v : Option (List ℕ)) → HasKey p → FieldHasKey (set_key p v)
unfolding FieldHasKey HasKey
set_key-HasKey p none h = tt
set_key-HasKey p (some value) h = elim (Bool-cases (length value == seckey_len)) [
  | inl e ↦ rw e (λ s. (==_iff (length value) seckey_len).0 e)
  | inr e ↦ rw e h
]

header_field-HasKey :
    (port : ℕ) (key : List ℕ) (value : Option (List ℕ)) (p : Parser)
    → HasKey p
    → FieldHasKey (header_field port key value p)
unfolding header_field
header_field-HasKey port key value p h = elim (Bool-cases (strings_eq key (text "Upgrade"))) [
  | inl e ↦ rw e (with_ok-HasKey p _ p.ok (same_text (text "websocket") value) h refl refl)
  | inr e1 ↦ elim (Bool-cases (strings_eq key (text "Connection"))) [
    | inl e ↦ rw (e1, e) (with_ok-HasKey p _ p.ok (same_text (text "Upgrade") value) h refl refl)
    | inr e2 ↦ elim (Bool-cases (strings_eq key (text "Sec-WebSocket-Version"))) [
      | inl e ↦ rw (e1, e2, e) (with_ok-HasKey p _ _ (same_text (text "13") value) h refl refl)
      | inr e3 ↦ elim (Bool-cases (strings_eq key (text "Sec-WebSocket-Key"))) [
        | inl e ↦ rw (e1, e2, e3, e) (set_key-HasKey p value h)
        | inr e4 ↦ elim (Bool-cases (strings_eq key (text "Host"))) [
          | inl e ↦
              rw (e1, e2, e3, e4, e)
                (with_ok-HasKey p _ p.ok (same_text (text "localhost:" ++ decimal port) value) h
                  refl refl)
          | inr e5 ↦ rw (e1, e2, e3, e4, e5) (unfold FieldHasKey in h)
        ]
      ]
    ]
  ]
]

request_line_same : (key : List ℕ) (ok : Seen) → (request_line key ok).sec_key ≡ ok.sec_key
request_line_same key ok =
    let tokens = words [] key in
    elim (Bool-cases (word_is (text "GET") tokens)) [
      | inr e ↦ rw e refl
      | inl e ↦ elim (Bool-cases (word_is (text "/") (next_words tokens))) [
        | inl p ↦ elim (Bool-cases (word_is (text "HTTP/1.1") (next_words (next_words tokens)))) [
          | inl v ↦ rw (e, p, v) refl
          | inr v ↦ rw (e, p, v) refl
        ]
        | inr p ↦ elim (Bool-cases (word_is (text "HTTP/1.1") (next_words (next_words tokens)))) [
          | inl v ↦ rw (e, p, v) refl
          | inr v ↦ rw (e, p, v) refl
        ]
      ]
    ]

unfoldable pub VerdictHasKey : Verdict → Type 0
VerdictHasKey (next_line q) = HasKey q
VerdictHasKey header_ends = Unit
VerdictHasKey invalid = Unit
VerdictHasKey unended = Unit

checked_field-HasKey : (o : Option Parser) → FieldHasKey o → VerdictHasKey (checked_field o)
unfolding FieldHasKey VerdictHasKey HasKey
checked_field-HasKey none h = tt
checked_field-HasKey (some p) h = h

use_field-HasKey :
    (port : ℕ) (p : Parser) (v : Option ℕ)
    → HasKey p
    → VerdictHasKey (elim v [
      | none ↦ invalid
      | some at ↦
          checked_field
            (header_field port (c_string p.line) (ended_string (drop at (p.line ++ p.rest))) p)
    ])
unfolding VerdictHasKey
use_field-HasKey port p none h = tt
use_field-HasKey port p (some at) h =
    checked_field-HasKey _ (header_field-HasKey port (c_string p.line) _ p h)

pub use_line-HasKey : (port : ℕ) (p : Parser) → HasKey p → VerdictHasKey (use_line port p)
unfolding use_line VerdictHasKey HasKey
use_line-HasKey port p h = elim (Bool-cases ((length (c_string p.line) == 0) && is_none p.value)) [
  | inl e ↦ rw e tt
  | inr e ↦ elim (Bool-cases p.first) [
    | inl f ↦ rw (e, f) (λ s. h (sym (request_line_same (c_string p.line) p.ok) ∙ s))
    | inr f ↦ rw (e, f) (use_field-HasKey port p p.value h)
  ]
]

pub all_seen-key : (ok : Seen) → all_seen ok ≡ true → ok.sec_key ≡ true
all_seen-key ok h = ground arith
