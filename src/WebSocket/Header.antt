-- ===== src/WebSocket/Header.antt =====
-- The bits, the answers and the fields of an HTTP header: `socket_server_error` of src/websocket.h,
-- and what its `socket_server_read_header` makes of a line.
use chroagh.Base.{
  ℕ, ◌==◌, not, ◌&&◌, ◌||◌, if◌then◌else◌, Bool, true, false, Option, none, some, List, [], ◌∷◌,
  ◌++◌, length, text, decimal,
}
use chroagh.WebSocket.State.{World, closed, block_write}
use chroagh.WebSocket.Message.{strings_eq}

-- The bits of `ok`.
pub record Seen : Type 0 where
  pub get : Bool
  pub get_path : Bool
  pub upgrade : Bool
  pub connection : Bool
  pub sec_version : Bool
  pub version : Bool
  pub sec_key : Bool
  pub host : Bool

abbrev pub nothing_seen : Seen
nothing_seen = record {
  get = false;
  get_path = false;
  upgrade = false;
  connection = false;
  sec_version = false;
  version = false;
  sec_key = false;
  host = false;
}

-- `ok & OK_WEBSOCKET`, `(ok & OK_OTHER_VERSION) == OK_OTHER_VERSION` and `ok == OK_ALL`.
abbrev pub some_websocket : Seen → Bool
some_websocket ok = ok.upgrade || ok.connection || ok.sec_version || ok.version || ok.sec_key

abbrev pub other_version : Seen → Bool
other_version ok = ok.get && ok.upgrade && ok.connection && ok.sec_version

abbrev pub all_seen : Seen → Bool
all_seen ok =
    ok.get && ok.get_path && ok.upgrade && ok.connection && ok.sec_version && ok.version
    && ok.sec_key && ok.host

abbrev pub not_found : List ℕ
not_found = text "HTTP/1.1 404 Not Found\r\n\r\n<h1>404 Not Found</h1>"

abbrev pub wrong_version : List ℕ
wrong_version = text "HTTP/1.1 400 Bad Request\r\nSec-WebSocket-Version: 13\r\n\r\n"

abbrev pub bad_request : List ℕ
bad_request = text "HTTP/1.1 400 Bad Request\r\n\r\n<h1>400 Bad Request</h1>"

abbrev pub error_answer : Seen → List ℕ
error_answer ok =
    if ok.get && (not ok.get_path || not (some_websocket ok))
    then not_found
    else if other_version ok && not ok.version
    then wrong_version
    else bad_request

abbrev pub close_new : ℕ → World → World
close_new fd w = record w { trace = closed fd ∷ w.trace }

-- Errors of the write are ignored.
unfoldable pub socket_server_error : ℕ → Seen → World → World
socket_server_error fd ok w = close_new fd (block_write (some fd) (error_answer ok) w).1

-- `strtok(_, " ")`, again and again: the words between spaces.
abbrev pub words : List ℕ → List ℕ → List (List ℕ)
words [] [] = []
words (x ∷ w) [] = (x ∷ w) ∷ []
words [] (c ∷ cs) = if c == b' ' then words [] cs else words (c ∷ []) cs
words (x ∷ w) (c ∷ cs) = if c == b' ' then (x ∷ w) ∷ words [] cs else words (x ∷ w ++ (c ∷ [])) cs

-- Whether the next word is the expected one; none is not.
abbrev pub word_is : List ℕ → List (List ℕ) → Bool
word_is expected [] = false
word_is expected (w ∷ ws) = strings_eq w expected

abbrev pub next_words : List (List ℕ) → List (List ℕ)
next_words [] = []
next_words (w ∷ ws) = ws

-- The parser: `ok`, whether the first line is to come, the offset of `key` in the buffer, the bytes
-- from `key` up to `pbuffer`, the offset of `value` from `key`, the `n` bytes from `pbuffer` on that
-- have been read, and `websocket_key`.
pub record Parser : Type 0 where
  pub ok : Seen
  pub first : Bool
  pub key_at : ℕ
  pub line : List ℕ
  pub value : Option ℕ
  pub rest : List ℕ
  pub websocket_key : List ℕ

-- The first line, "GET / HTTP/1.1".
abbrev pub request_line : List ℕ → Seen → Seen
request_line key ok =
    let tokens = words [] key in
    if not (word_is (text "GET") tokens)
    then ok
    else (let path_ok : Seen =
          if word_is (text "/") (next_words tokens) then record ok { get_path = true } else ok in
        if word_is (text "HTTP/1.1") (next_words (next_words tokens))
        then record path_ok { get = true }
        else path_ok)

-- SECKEY_LEN
abbrev pub seckey_len : ℕ
seckey_len = 24

-- How a line changes `ok` and the key; `none` is the string of a value that has no end in what was
-- read.
abbrev pub same_text : List ℕ → Option (List ℕ) → Option Bool
same_text expected none = none
same_text expected (some value) = some (strings_eq value expected)

abbrev pub set_if : Seen → Seen → Option Bool → Option Seen
set_if yes' no' none = none
set_if yes' no' (some b) = some (if b then yes' else no')

abbrev pub set_key : Parser → Option (List ℕ) → Option Parser
set_key p none = none
set_key p (some value) = some (
    if length value == seckey_len
    then record p { ok = record p.ok { sec_key = true }; websocket_key = value }
    else p)

abbrev pub with_ok : Parser → Option Seen → Option Parser
with_ok p none = none
with_ok p (some ok) = some (record p { ok = ok })

-- The fields that the header must have. `Upgrade` and `Connection` with another value are like a
-- field of another name.
unfoldable pub header_field : ℕ → List ℕ → Option (List ℕ) → Parser → Option Parser
header_field port key value p =
    if strings_eq key (text "Upgrade")
    then with_ok p
        (set_if (record p.ok { upgrade = true }) p.ok (same_text (text "websocket") value))
    else if strings_eq key (text "Connection")
    then with_ok p
        (set_if (record p.ok { connection = true }) p.ok (same_text (text "Upgrade") value))
    else if strings_eq key (text "Sec-WebSocket-Version")
    then with_ok p (
        set_if (record p.ok { sec_version = true; version = true })
          (record p.ok { sec_version = true }) (same_text (text "13") value))
    else if strings_eq key (text "Sec-WebSocket-Key")
    then set_key p value
    else if strings_eq key (text "Host")
    then with_ok p (
        set_if (record p.ok { host = true }) p.ok
          (same_text (text "localhost:" ++ decimal port) value))
    else some p
