-- ===== src/WebSocket/Handshake/Accepting.antt =====
-- A header of fields is understood field by field, in whatever segments it arrives.
use chroagh.Base.{
  ℕ, zero, suc, ◌+◌, ◌-◌, ◌<◌, ◌≤◌, ◌≡◌, ◌==◌, refl, sym, ap, ◌∙◌, inl, inr, ◌&&◌, Bool, true,
  false, if◌then◌else◌, Option, none, some, List, [], ◌∷◌, ◌++◌, append_assoc, append-nil, arith,
  length, Outcome, done, drop, text, ==_refl,
}
use chroagh.Io.Read.{available, read-cases}
use chroagh.WebSocket.State.{World, update}
use chroagh.WebSocket.Message.{c_string}
use chroagh.WebSocket.Handshake.{
  next_line, start_line, after_verdict, read_line, use_line, ended_string, after_line, header_loop,
  initial, after_first_read, read_new, socket_server_read_header,
}
use chroagh.WebSocket.Header.{Seen, nothing_seen, all_seen, socket_server_error, Parser}
use chroagh.WebSocket.Handshake.Meaning.{
  Field, IsField, field_text, all, name_byte, value_byte, seen_with, key_with, seen_in, key_in,
  header_field_lem,
}
use chroagh.WebSocket.Handshake.Lines.{Spot, placed}
use chroagh.WebSocket.Handshake.Split.{
  split_text, at_start, split_field, read_field, read_first, finish_line,
}

and_false : (b : Bool) → (b && false) ≡ false
and_false true = refl
and_false false = refl

c_string_name : (n r : List ℕ) → all name_byte n ≡ true → c_string (n ++ (0 ∷ r)) ≡ n
c_string_name [] r h = refl
c_string_name (zero ∷ n) r h = absurd (ground (arith, h))
c_string_name (suc c ∷ n) r h = ap (λ t. suc c ∷ t) (c_string_name n r (ground arith))

ended_value : (v r : List ℕ) → all value_byte v ≡ true → ended_string (v ++ (0 ∷ r)) ≡ some v
ended_value [] r h = refl
ended_value (zero ∷ v) r h = absurd (ground (arith, h))
ended_value (suc c ∷ v) r h = rw (ended_value v r (ground arith)) refl

drop_behind : (xs ys : List ℕ) (a b : ℕ) → drop (length xs + 2) (xs ++ (a ∷ b ∷ ys)) ≡ ys
drop_behind [] ys a b = refl
drop_behind (x ∷ xs) ys a b =
    let e : length (x ∷ xs) + 2 ≡ suc (length xs + 2) = omega arith in
    ap (λ n. drop n (x ∷ (xs ++ (a ∷ b ∷ ys)))) e ∙ drop_behind xs ys a b

split_assoc :
    (f : Field) (r : List ℕ)
    → split_text f ++ r ≡ f.name ++ (0 ∷ b' ' ∷ (f.value ++ (0 ∷ b'\n' ∷ r)))
split_assoc f r =
    append_assoc ((f.name ++ (0 ∷ [])) ++ (b' ' ∷ f.value)) (0 ∷ b'\n' ∷ []) r
    ∙ append_assoc (f.name ++ (0 ∷ [])) (b' ' ∷ f.value) (0 ∷ b'\n' ∷ r)
    ∙ append_assoc f.name (0 ∷ []) (b' ' ∷ (f.value ++ (0 ∷ b'\n' ∷ r)))

module _ (f : Field) (h : IsField f) where
  name_of_line : c_string (split_text f) ≡ f.name
  name_of_line =
      ap c_string (sym (append-nil (split_text f)) ∙ split_assoc f [])
      ∙ c_string_name f.name (b' ' ∷ (f.value ++ (0 ∷ b'\n' ∷ []))) h.name_text

  value_of_line :
      (r : List ℕ) → ended_string (drop (length f.name + 2) (split_text f ++ r)) ≡ some f.value
  value_of_line r =
      ap (λ t. ended_string (drop (length f.name + 2) t)) (split_assoc f r)
      ∙ ap ended_string (drop_behind f.name (f.value ++ (0 ∷ b'\n' ∷ r)) 0 b' ')
      ∙ ended_value f.value (b'\n' ∷ r) h.value_text

  field_used :
      (port key_at : ℕ) (ok : Seen) (key rest : List ℕ)
      → let p : Parser = record (split_field ok key f) { key_at = key_at; rest = rest } in
        use_line port p
        ≡ next_line
            (start_line (record p { ok = seen_with port f ok; websocket_key = key_with f key }))
  unfolding use_line
  field_used port key_at ok key rest =
      let p : Parser = record (split_field ok key f) { key_at = key_at; rest = rest } in
      rw
        (
          and_false (length (c_string (split_text f)) == 0),
          value_of_line rest,
          name_of_line,
          header_field_lem port f p,
        )
        refl

-- The fields, and the empty line.
abbrev pub header_text : List Field → List ℕ → List ℕ
header_text [] more = b'\r' ∷ b'\n' ∷ more
header_text (f ∷ fs) more = field_text f (header_text fs more)

abbrev pub AreFields : List Field → Type 0
AreFields [] = Unit
AreFields (f ∷ fs) = IsField f × AreFields fs

-- What `socket_server_read_header` returns for the fields.
abbrev pub settle : ℕ → Seen → List ℕ → World → Outcome (Option (List ℕ) × World)
settle fd ok key w =
    if all_seen ok then done (some key, w) else done (none, socket_server_error fd ok w)

abbrev pub first_seen : Seen
first_seen = record nothing_seen { get = true; get_path = true }

abbrev request_text : List ℕ
request_text = text "GET / HTTP/1.1"

module _ (fd : ℕ) (w : World) (bytes port : ℕ) (enough : 4096 ≤ bytes) where
  fields_read :
      (fuel : ℕ) (ok : Seen) (key : List ℕ) (fs : List Field) (more : List ℕ)
      → AreFields fs
      → length fs < fuel
      → (s : Spot fd w (header_text fs more))
      → (s' : Spot fd w more) × (header_loop fuel bytes port fd
            (placed fd w (at_start ok key) s)
            s.now
          ≡ settle fd (seen_in port fs ok) (key_in fs key) s'.now)
  unfolding header_loop use_line
  fields_read zero ok key fs more h fuels s = absurd (omega arith)
  fields_read (suc fuel) ok key [] more h fuels s =
      let again = header_loop fuel bytes port fd in
      let k = bytes - 2 in
      let counts : bytes ≡ suc (suc k) = omega arith in
      let (s1, r1) = finish_line fd w k (at_start ok key) more s (refl, refl) (omega arith) in
      (
        s1,
        ap (λ n. after_line again port fd (read_line n fd (placed fd w (at_start ok key) s) s.now))
              counts
            ∙ ap (after_line again port fd) r1,
      )
  fields_read (suc fuel) ok key (f ∷ fs) more h fuels s =
      let again = header_loop fuel bytes port fd in
      let (s1, r1) = read_field fd w bytes ok key f (header_text fs more) h.0 enough s in
      let s2 : Spot fd w (header_text fs more) = record s1 {
        key_at = s1.key_at + length (split_text f);
      } in
      let (s3, r3) =
        fields_read fuel (seen_with port f ok) (key_with f key) fs more h.1 (omega arith) s2 in
      (
        s3,
        ap (after_line again port fd) r1
            ∙ ap (after_verdict again fd (placed fd w (split_field ok key f) s1) s1.now)
                (field_used f h.0 port s1.key_at ok key s1.rest)
            ∙ r3,
      )

  header_read :
      (fuel : ℕ) (fs : List Field) (more : List ℕ)
      → AreFields fs
      → length fs < fuel
      → (s : Spot fd w (request_text ++ (b'\r' ∷ b'\n' ∷ header_text fs more)))
      → (s' : Spot fd w more) × (header_loop
            (suc fuel)
            bytes
            port
            fd
            (placed fd w (initial []) s)
            s.now
          ≡ settle fd (seen_in port fs first_seen) (key_in fs []) s'.now)
  unfolding header_loop use_line
  header_read fuel fs more h fuels s =
      let again = header_loop fuel bytes port fd in
      let (s1, r1) =
        read_first fd w bytes (initial []) request_text (header_text fs more) refl refl refl
          (omega arith) enough s in
      let s2 : Spot fd w (header_text fs more) = record s1 { key_at = s1.key_at + 16 } in
      let (s3, r3) = fields_read fuel first_seen [] fs more h fuels s2 in
      (s3, ap (after_line again port fd) r1 ∙ r3)

-- A header with the request line for / and any fields that fit the buffer, in whatever segments it
-- arrives, with fuel for its lines and for a full buffer: the key is returned, with the connection
-- as it was, if the fields say all that a WebSocket needs; else the error for what they say is sent.
pub read_header_lem :
    (fuel bytes port fd : ℕ) (fs : List Field) (more : List ℕ) (w : World)
    → AreFields fs
    → length fs < fuel
    → 4096 ≤ bytes
    → available (w.incoming fd) ≡ text "GET / HTTP/1.1" ++ (b'\r' ∷ b'\n' ∷ header_text fs more)
    → (w' : World) × (socket_server_read_header (suc fuel) bytes port fd w
        ≡ settle fd (seen_in port fs first_seen) (key_in fs []) w')
      × (w'.client_fd ≡ w.client_fd)
      × (w'.trace ≡ w.trace)
      × (w'.accepts ≡ w.accepts)
unfolding socket_server_read_header read_new
read_header_lem fuel bytes port fd fs more w h fuels enough arrives =
    elim (read-cases 4095 (w.incoming fd)) [
      | inr blocked ↦ absurd (ground (arith, sym arrives ∙ blocked.0))
      | inl b ↦
          let now : World = record w { incoming = update w.incoming fd b.rest } in
          let here : now.incoming fd ≡ b.rest = rw (==_refl fd) refl in
          let s : Spot fd w (request_text ++ (b'\r' ∷ b'\n' ∷ header_text fs more)) = record {
            key_at = 0;
            rest = b.x ∷ b.xs;
            now = now;
            coming = ap (λ t. (b.x ∷ b.xs) ++ available t) here ∙ sym b.split ∙ arrives;
            client = refl;
            trace = refl;
            accepts = refl;
          } in
          let (s', r) = header_read fd w bytes port enough fuel fs more h fuels s in
          (
            s'.now,
            ap
                  (λ r.
                    after_first_read (suc fuel) bytes port fd
                      (r.0, record w { incoming = update w.incoming fd r.1 }))
                  b.result
                ∙ r,
            s'.client,
            s'.trace,
            s'.accepts,
          )
    ]
