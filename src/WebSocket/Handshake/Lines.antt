-- ===== src/WebSocket/Handshake/Lines.antt =====
-- A line of the header is read whole, in whatever segments it arrives.
use chroagh.Base.{
  ℕ, suc, ◌+◌, ◌-◌, ◌<◌, ◌≡◌, ◌==◌, refl, sym, ap, ◌∙◌, inl, inr, not, ◌&&◌, Bool, false, Option,
  none, some, List, [], ◌∷◌, ◌++◌, List-cases, arith, length, ==_refl,
}
use chroagh.Io.Read.{available, read-cases, Brings}
use chroagh.WebSocket.State.{World, update}
use chroagh.WebSocket.Constants.{buffersize}
use chroagh.WebSocket.Handshake.{
  goes_on, is_none, take_byte, refilled, read_new, refill, read_line, after_refill, after_byte,
}
use chroagh.WebSocket.Header.{Parser}

-- A byte that is neither the end of the line nor the colon after a name.
abbrev pub IsPlain : Bool → Option ℕ → ℕ → Type 0
IsPlain first value c =
    ((c == b'\n') ≡ false) × ((not first && is_none value && (c == b':')) ≡ false)

abbrev pub ArePlain : Bool → Option ℕ → List ℕ → Type 0
ArePlain first value [] = Unit
ArePlain first value (c ∷ cs) = IsPlain first value c × ArePlain first value cs

module _ (fd : ℕ) (w : World) where
  -- Where the parser stands when only the bytes `more` are to come, from `fd` and from the buffer.
  pub record Spot (more : List ℕ) : Type 0 where
    pub key_at : ℕ
    pub rest : List ℕ
    pub now : World
    pub coming : rest ++ available (now.incoming fd) ≡ more
    pub client : now.client_fd ≡ w.client_fd
    pub trace : now.trace ≡ w.trace
    pub accepts : now.accepts ≡ w.accepts

  abbrev pub placed : {more : List ℕ} → Parser → Spot more → Parser
  placed e s = record e { key_at = s.key_at; rest = s.rest }

  record Refills (e : Parser) (c : ℕ) (more : List ℕ) (r : Option Parser × World) : Type 0 where
    spot : Spot more
    result : r ≡ (some (record (placed e spot) { rest = c ∷ spot.rest }), spot.now)

  refilled-Refills :
      (e : Parser) (c : ℕ) (more : List ℕ) (s : Spot (c ∷ more)) (need : ℕ)
      → buffersize - length e.line ≡ suc need
      → s.rest ≡ []
      → Brings (suc need) (s.now.incoming fd)
      → Refills e c more (refilled fd (placed e s) (read_new fd (suc need) s.now))
  unfolding read_new
  refilled-Refills e c more s need enough empty b =
      let split : (b.x ∷ b.xs) ++ available b.rest ≡ c ∷ more =
        sym b.split ∙ ap (λ t. t ++ available (s.now.incoming fd)) (sym empty) ∙ s.coming in
      let same : b.x ≡ c = cc split in
      let now : World = record s.now { incoming = update s.now.incoming fd b.rest } in
      let here : now.incoming fd ≡ b.rest = rw (==_refl fd) refl in
      record {
        spot = record {
          key_at = 0;
          rest = b.xs;
          now = now;
          coming = ap (λ t. b.xs ++ available t) here ∙ cc split;
          client = s.client;
          trace = s.trace;
          accepts = s.accepts;
        };
        result =
            ap
              (λ r.
                refilled fd (placed e s)
                  (r.0, record s.now { incoming = update s.now.incoming fd r.1 }))
              b.result
            ∙ ap (λ x. (some (record e { key_at = 0; rest = x ∷ b.xs }), now)) same;
      }

  -- A byte that is to come is there after a refill.
  refill-Refills :
      (e : Parser) (c : ℕ) (more : List ℕ) (s : Spot (c ∷ more))
      → length e.line < buffersize
      → Refills e c more (refill fd (placed e s) s.now)
  unfolding refill
  refill-Refills e c more s room = elim (List-cases s.rest) [
    | inr (x, xs, r) ↦
        let split : (x ∷ xs) ++ available (s.now.incoming fd) ≡ c ∷ more =
          ap (λ t. t ++ available (s.now.incoming fd)) (sym r) ∙ s.coming in
        let same : x ≡ c = cc split in
        record {
          spot = record {
            key_at = s.key_at;
            rest = xs;
            now = s.now;
            coming = cc split;
            client = s.client;
            trace = s.trace;
            accepts = s.accepts;
          };
          result =
              ap (λ t. refill fd (record e { key_at = s.key_at; rest = t }) s.now)
                (r ∙ ap (λ y. y ∷ xs) same);
        }
    | inl empty ↦
        let need = buffersize - length e.line - 1 in
        let enough : buffersize - length e.line ≡ suc need = omega arith in
        elim (read-cases need (s.now.incoming fd)) [
          | inl b ↦
              let r = refilled-Refills e c more s need enough empty b in
              record {
                spot = r.spot;
                result =
                    ap (λ t. refill fd (record e { key_at = s.key_at; rest = t }) s.now) empty
                    ∙ ap
                        (λ n.
                          refilled fd (record e { key_at = s.key_at; rest = [] })
                            (read_new fd n s.now))
                        enough
                    ∙ ap
                        (λ t.
                          refilled fd (record e { key_at = s.key_at; rest = t })
                            (read_new fd (suc need) s.now))
                        (sym empty)
                    ∙ r.result;
              }
          | inr blocked ↦
              let none_left : [] ++ available (s.now.incoming fd) ≡ c ∷ more =
                ap (λ t. t ++ available (s.now.incoming fd)) (sym empty) ∙ s.coming in
              absurd (cc (none_left, blocked.0))
        ]
  ]

  module _ (fuel : ℕ) (e : Parser) (c : ℕ) (more : List ℕ) (s : Spot (c ∷ more))
      (room : length e.line < buffersize) where
    pub next_spot : Spot more
    next_spot = (refill-Refills e c more s room).spot

    pub byte_read :
        read_line (suc fuel) fd (placed e s) s.now
        ≡ after_refill
            (read_line fuel fd)
            (some (record (placed e next_spot) { rest = c ∷ next_spot.rest }), next_spot.now)
    unfolding read_line next_spot
    byte_read = ap (after_refill (read_line fuel fd)) (refill-Refills e c more s room).result

    plain_byte :
        (p : Parser) (rest : List ℕ)
        → IsPlain p.first p.value c
        → take_byte p c rest ≡ goes_on (record p { line = p.line ++ (c ∷ []); rest = rest })
    unfolding take_byte
    plain_byte p rest plain = rw (plain.0, plain.1) refl

    pub push :
        IsPlain e.first e.value c
        → (s' : Spot more) × (read_line (suc fuel) fd (placed e s) s.now
            ≡ read_line fuel fd (placed (record e { line = e.line ++ (c ∷ []) }) s') s'.now)
    push plain = (
      next_spot,
      byte_read
          ∙ ap (after_byte (read_line fuel fd) next_spot.now) (
              plain_byte (record (placed e next_spot) { rest = c ∷ next_spot.rest }) next_spot.rest
                plain),
    )

    colon_byte :
        (p : Parser) (rest : List ℕ)
        → c ≡ b':'
        → p.first ≡ false
        → p.value ≡ none
        → take_byte p c rest
          ≡ goes_on (record p {
            value = some (length p.line + 2);
            line = p.line ++ (0 ∷ []);
            rest = rest;
          })
    unfolding take_byte
    colon_byte p rest is f v = rw (is, f, v) refl

    pub colon :
        c ≡ b':'
        → e.first ≡ false
        → e.value ≡ none
        → (s' : Spot more) × (read_line (suc fuel) fd (placed e s) s.now
            ≡ read_line fuel fd
                (placed
                  (record e { line = e.line ++ (0 ∷ []); value = some (length e.line + 2) })
                  s')
                s'.now)
    colon is f v = (
      next_spot,
      byte_read
          ∙ ap (after_byte (read_line fuel fd) next_spot.now) (
              colon_byte (record (placed e next_spot) { rest = c ∷ next_spot.rest }) next_spot.rest
                is f v),
    )
