-- ===== src/WebSocket/Handshake/Complete.antt =====
-- A header that has all that a WebSocket needs, in any order and among other fields.
use chroagh.Base.{
  ℕ, suc, ◌<◌, ◌≤◌, ◌≡◌, refl, ap, ◌∙◌, ◌&&◌, ◌||◌, if◌then◌else◌, Bool, true, false, none, some,
  List, [], ◌∷◌, ◌++◌, length, text, decimal, done, Bool-cases, inl, inr, arith,
}
use chroagh.Io.Read.{available}
use chroagh.WebSocket.State.{World}
use chroagh.WebSocket.Message.{strings_eq}
use chroagh.WebSocket.Handshake.{socket_server_read_header}
use chroagh.WebSocket.Header.{Seen, all_seen, socket_server_error}
use chroagh.WebSocket.Handshake.Meaning.{Field, says, has_key, seen_with, seen_in, key_in}
use chroagh.WebSocket.Handshake.Accepting.{header_text, AreFields, first_seen, read_header_lem}

abbrev pub any : (Field → Bool) → List Field → Bool
any test [] = false
any test (f ∷ fs) = test f || any test fs

abbrev pub is_version : Field → Bool
is_version f = strings_eq f.name (text "Sec-WebSocket-Version")

-- Some field asks for each thing, and some field has a key of 24 bytes.
pub record IsComplete (port : ℕ) (fs : List Field) : Type 0 where
  pub upgrade : any (says (text "Upgrade") (text "websocket")) fs ≡ true
  pub connection : any (says (text "Connection") (text "Upgrade")) fs ≡ true
  pub version : any (says (text "Sec-WebSocket-Version") (text "13")) fs ≡ true
  pub key : any has_key fs ≡ true
  pub host : any (says (text "Host") (text "localhost:" ++ decimal port)) fs ≡ true

-- The same, begun with a bit.
abbrev any_from : (Field → Bool) → List Field → Bool → Bool
any_from test [] b = b
any_from test (f ∷ fs) b = any_from test fs (test f || b)

any_from-true : (test : Field → Bool) (fs : List Field) → any_from test fs true ≡ true
any_from-true test [] = refl
any_from-true test (f ∷ fs) = ap (any_from test fs) (or_true (test f)) ∙ any_from-true test fs
  where
    or_true : (b : Bool) → (b || true) ≡ true
    or_true true = refl
    or_true false = refl

any_from_lem :
    (test : Field → Bool) (fs : List Field) (b : Bool)
    → any test fs ≡ true
    → any_from test fs b ≡ true
any_from_lem test [] b h = ground arith
any_from_lem test (f ∷ fs) b h = elim (Bool-cases (test f)) [
  | inl e ↦ rw e (any_from-true test fs)
  | inr e ↦ rw e (any_from_lem test fs b (rw⁻¹ h (rw e refl)))
]

-- A version of 13 is a version.
any_weaker :
    (t u : Field → Bool) (fs : List Field)
    → ((f : Field) → t f ≡ true → u f ≡ true)
    → any t fs ≡ true
    → any u fs ≡ true
any_weaker t u [] w h = h
any_weaker t u (f ∷ fs) w h = elim (Bool-cases (t f)) [
  | inl e ↦ rw (w f e) refl
  | inr e ↦ elim (Bool-cases (u f)) [
    | inl d ↦ rw d refl
    | inr d ↦ rw d (any_weaker t u fs w (rw⁻¹ h (rw e refl)))
  ]
]

both_first : (a b : Bool) → (a && b) ≡ true → a ≡ true
both_first true b h = refl
both_first false b h = h

module _ (port : ℕ) where
  same_bits :
      (fs : List Field) (ok : Seen)
      → seen_in port fs ok ≡ record ok {
        upgrade = any_from (says (text "Upgrade") (text "websocket")) fs ok.upgrade;
        connection = any_from (says (text "Connection") (text "Upgrade")) fs ok.connection;
        sec_version = any_from is_version fs ok.sec_version;
        version = any_from (says (text "Sec-WebSocket-Version") (text "13")) fs ok.version;
        sec_key = any_from has_key fs ok.sec_key;
        host = any_from (says (text "Host") (text "localhost:" ++ decimal port)) fs ok.host;
      }
  same_bits [] ok = refl
  same_bits (f ∷ fs) ok = same_bits fs (seen_with port f ok)

  complete-all_seen :
      (fs : List Field) → IsComplete port fs → all_seen (seen_in port fs first_seen) ≡ true
  complete-all_seen fs h =
      let version =
        any_weaker (says (text "Sec-WebSocket-Version") (text "13")) is_version fs
          (λ f e. both_first _ _ e) h.version in
      rw
        (
          same_bits fs first_seen,
          any_from_lem (says (text "Upgrade") (text "websocket")) fs false h.upgrade,
          any_from_lem (says (text "Connection") (text "Upgrade")) fs false h.connection,
          any_from_lem is_version fs false version,
          any_from_lem (says (text "Sec-WebSocket-Version") (text "13")) fs false h.version,
          any_from_lem has_key fs false h.key,
          any_from_lem (says (text "Host") (text "localhost:" ++ decimal port)) fs false h.host,
        )
        refl

-- A header with the request line for / and with all that a WebSocket needs among its fields, in any
-- order and in whatever segments, each field in the size of the buffer, with fuel for its lines and
-- for a full buffer: the key in the last field that has one is returned, and nothing is sent.
pub complete_accepted :
    (fuel bytes port fd : ℕ) (fs : List Field) (more : List ℕ) (w : World)
    → AreFields fs
    → IsComplete port fs
    → length fs < fuel
    → 4096 ≤ bytes
    → available (w.incoming fd) ≡ text "GET / HTTP/1.1" ++ (b'\r' ∷ b'\n' ∷ header_text fs more)
    → (w' : World) × (socket_server_read_header (suc fuel) bytes port fd w
        ≡ done (some (key_in fs []), w'))
      × (w'.client_fd ≡ w.client_fd)
      × (w'.trace ≡ w.trace)
complete_accepted fuel bytes port fd fs more w h complete fuels enough arrives =
    let (w', run, client, trace, _) =
      read_header_lem fuel bytes port fd fs more w h fuels enough arrives in
    (
      w',
      run
          ∙ ap
              (λ b.
                if b
                then done (some (key_in fs []), w')
                else done (none, socket_server_error fd (seen_in port fs first_seen) w'))
              (complete-all_seen port fs complete),
      client,
      trace,
    )
