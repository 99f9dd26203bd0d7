-- ===== src/WebSocket/Handshake/Split.antt =====
-- The first line, and the lines of fields, as the parser splits them.
use chroagh.Base.{
  ℕ, suc, ◌+◌, ◌-◌, ◌<◌, ◌≤◌, ◌≡◌, ◌==◌, refl, sym, ap, ◌∙◌, Bool, true, false, Option, none, some,
  List, [], ◌∷◌, ◌++◌, append_assoc, append-nil, length-append, arith, length, done, take,
  take_prefix,
}
use chroagh.WebSocket.State.{World}
use chroagh.WebSocket.Constants.{buffersize}
use chroagh.WebSocket.Handshake.{line_ends, end_line, take_byte, read_line, after_byte, ends_in_cr}
use chroagh.WebSocket.Header.{Seen, Parser}
use chroagh.WebSocket.Handshake.Meaning.{Field, IsField, field_text, all, name_byte, value_byte}
use chroagh.WebSocket.Handshake.Lines.{
  Spot, placed, IsPlain, ArePlain, push, colon, next_spot, byte_read,
}

ends_in_cr-append : (l : List ℕ) → ends_in_cr (l ++ (b'\r' ∷ [])) ≡ true
ends_in_cr-append [] = refl
ends_in_cr-append (x ∷ []) = refl
ends_in_cr-append (x ∷ y ∷ l) = ends_in_cr-append (y ∷ l)

end_of_line :
    (p : Parser) (l rest : List ℕ)
    → p.line ≡ l ++ (b'\r' ∷ [])
    → end_line p rest ≡ line_ends (record p { line = l ++ (0 ∷ b'\n' ∷ []); rest = rest })
end_of_line p l rest e =
    let counts : length p.line ≡ suc (length l) =
      ap length e ∙ omega (arith, length-append l (b'\r' ∷ [])) in
    let some_bytes : (length p.line == 0) ≡ false = ground arith in
    let cr : ends_in_cr p.line ≡ true = ap ends_in_cr e ∙ ends_in_cr-append l in
    let before : take (length p.line - 1) p.line ≡ l =
      let n : length p.line - 1 ≡ length l = omega arith in
      ap (λ n. take n p.line) n ∙ ap (take (length l)) e ∙ take_prefix l (b'\r' ∷ []) in
    rw (some_bytes, cr, before) refl

name-ArePlain : (cs : List ℕ) → all name_byte cs ≡ true → ArePlain false none cs
name-ArePlain [] h = tt
name-ArePlain (c ∷ cs) h = ((ground arith, ground arith), name-ArePlain cs (ground arith))

value-ArePlain : (at : ℕ) (cs : List ℕ) → all value_byte cs ≡ true → ArePlain false (some at) cs
value-ArePlain at [] h = tt
value-ArePlain at (c ∷ cs) h = ((ground arith, refl), value-ArePlain at cs (ground arith))

first-ArePlain :
    (first : Bool) (value : Option ℕ) (cs : List ℕ)
    → first ≡ true
    → all value_byte cs ≡ true
    → ArePlain first value cs
first-ArePlain first value [] e h = tt
first-ArePlain first value (c ∷ cs) e h =
    ((ground arith, rw e refl), first-ArePlain first value cs e (ground arith))

-- The fuel for the bytes and what comes after them.
abbrev pub with_bytes : List ℕ → ℕ → ℕ
with_bytes [] fuel = fuel
with_bytes (c ∷ cs) fuel = suc (with_bytes cs fuel)

pub with_bytes_lem : (cs : List ℕ) (fuel : ℕ) → with_bytes cs fuel ≡ length cs + fuel
with_bytes_lem [] fuel = omega arith
with_bytes_lem (c ∷ cs) fuel = omega (arith, with_bytes_lem cs fuel)

-- The line of a field, with a NUL after the name and after the value.
abbrev pub split_text : Field → List ℕ
split_text f = ((f.name ++ (0 ∷ [])) ++ (b' ' ∷ f.value)) ++ (0 ∷ b'\n' ∷ [])

abbrev pub at_start : Seen → List ℕ → Parser
at_start ok key = record {
  ok = ok;
  first = false;
  key_at = 0;
  line = [];
  value = none;
  rest = [];
  websocket_key = key;
}

abbrev pub split_field : Seen → List ℕ → Field → Parser
split_field ok key f = record (at_start ok key) {
  line = split_text f;
  value = some (length f.name + 2);
}

module _ (fd : ℕ) (w : World) where
  -- Plain bytes are appended to the line.
  pub run :
      (fuel : ℕ) (e : Parser) (cs more : List ℕ) (s : Spot fd w (cs ++ more))
      → ArePlain e.first e.value cs
      → length e.line + length cs ≤ buffersize
      → (s' : Spot fd w more) × (read_line (with_bytes cs fuel) fd (placed fd w e s) s.now
          ≡ read_line fuel fd (placed fd w (record e { line = e.line ++ cs }) s') s'.now)
  run fuel e [] more s plain room = (
    s,
    ap (λ l. read_line fuel fd (placed fd w (record e { line = l }) s) s.now)
        (sym (append-nil e.line)),
  )
  run fuel e (c ∷ cs) more s plain room =
      let e' : Parser = record e { line = e.line ++ (c ∷ []) } in
      let (s1, first_step) =
        push fd w (with_bytes cs fuel) e c (cs ++ more) s (omega arith) plain.0 in
      let (s2, steps) =
        run fuel e' cs more s1 plain.1 (omega (arith, length-append e.line (c ∷ []))) in
      (
        s2,
        first_step
            ∙ steps
            ∙ ap (λ l. read_line fuel fd (placed fd w (record e { line = l }) s2) s2.now)
                (append_assoc e.line (c ∷ []) cs),
      )

  -- The end of a line in CR and LF.
  pub newline :
      (fuel : ℕ) (e : Parser) (l more : List ℕ) (s : Spot fd w (b'\n' ∷ more))
      → e.line ≡ l ++ (b'\r' ∷ [])
      → length e.line < buffersize
      → (s' : Spot fd w more) × (read_line (suc fuel) fd (placed fd w e s) s.now
          ≡ done (some (placed fd w (record e { line = l ++ (0 ∷ b'\n' ∷ []) }) s'), s'.now))
  unfolding take_byte
  newline fuel e l more s is room =
      let s' = next_spot fd w fuel e b'\n' more s room in
      let p : Parser = record (placed fd w e s') { rest = b'\n' ∷ s'.rest } in
      (
        s',
        byte_read fd w fuel e b'\n' more s room
            ∙ ap (after_byte (read_line fuel fd) s'.now) (end_of_line p l s'.rest is),
      )

  -- CR and LF.
  pub finish_line :
      (k : ℕ) (e : Parser) (more : List ℕ) (s : Spot fd w (b'\r' ∷ b'\n' ∷ more))
      → IsPlain e.first e.value b'\r'
      → length e.line + 2 ≤ buffersize
      → (s' : Spot fd w more) × (read_line (suc (suc k)) fd (placed fd w e s) s.now
          ≡ done (some (placed fd w (record e { line = e.line ++ (0 ∷ b'\n' ∷ []) }) s'), s'.now))
  finish_line k e more s plain room =
      let e' : Parser = record e { line = e.line ++ (b'\r' ∷ []) } in
      let (s1, r1) = push fd w (suc k) e b'\r' (b'\n' ∷ more) s (omega arith) plain in
      let (s2, r2) =
        newline k e' e.line more s1 refl (omega (arith, length-append e.line (b'\r' ∷ []))) in
      (s2, r1 ∙ r2)

  pub read_field :
      (bytes : ℕ) (ok : Seen) (key : List ℕ) (f : Field) (more : List ℕ)
      → IsField f
      → 4096 ≤ bytes
      → (s : Spot fd w (field_text f more))
      → (s' : Spot fd w more) × (read_line bytes fd (placed fd w (at_start ok key) s) s.now
          ≡ done (some (placed fd w (split_field ok key f) s'), s'.now))
  read_field bytes ok key f more h enough s =
      let len = length f.name + length f.value + 4 in
      let e0 = at_start ok key in
      let e1 : Parser = record e0 { line = f.name } in
      let e2 : Parser = record e1 { line = f.name ++ (0 ∷ []); value = some (length f.name + 2) } in
      let e3 : Parser = record e2 { line = e2.line ++ (b' ' ∷ f.value) } in
      let k = bytes - len in
      let fuel3 = with_bytes (b' ' ∷ f.value) (suc (suc k)) in
      let fuel1 = with_bytes f.name (suc fuel3) in
      let l2 = length-append f.name (0 ∷ []) in
      let l3 = length-append e2.line (b' ' ∷ f.value) in
      let counts : bytes ≡ fuel1 = omega (
        arith,
        h.fits,
        with_bytes_lem f.name (suc fuel3),
        with_bytes_lem (b' ' ∷ f.value) (suc (suc k)),
      ) in
      let (s1, r1) =
        run (suc fuel3) e0 f.name _ s (name-ArePlain f.name h.name_text) (omega (arith, h.fits)) in
      let (s2, r2) = colon fd w fuel3 e1 b':' _ s1 (omega (arith, h.fits)) refl refl refl in
      let (s3, r3) =
        run (suc (suc k)) e2 (b' ' ∷ f.value) _ s2
          ((refl, refl), value-ArePlain (length f.name + 2) f.value h.value_text)
          (omega (arith, h.fits, l2)) in
      let (s4, r4) = finish_line k e3 more s3 (refl, refl) (omega (arith, h.fits, l2, l3)) in
      (s4, ap (λ n. read_line n fd (placed fd w e0 s) s.now) counts ∙ r1 ∙ r2 ∙ r3 ∙ r4)

  pub read_first :
      (bytes : ℕ) (e : Parser) (cs more : List ℕ)
      → e.first ≡ true
      → e.line ≡ []
      → all value_byte cs ≡ true
      → length cs + 2 ≤ buffersize
      → 4096 ≤ bytes
      → (s : Spot fd w (cs ++ (b'\r' ∷ b'\n' ∷ more)))
      → (s' : Spot fd w more) × (read_line bytes fd (placed fd w e s) s.now
          ≡ done (some (placed fd w (record e { line = cs ++ (0 ∷ b'\n' ∷ []) }) s'), s'.now))
  read_first bytes e cs more first empty plain room enough s =
      let k = bytes - length cs - 2 in
      let counts : bytes ≡ with_bytes cs (suc (suc k)) =
        omega (arith, with_bytes_lem cs (suc (suc k))) in
      let e1 : Parser = record e { line = e.line ++ cs } in
      let l1 = length-append e.line cs in
      let none_yet = ap length empty in
      let (s1, r1) =
        run (suc (suc k)) e cs _ s (first-ArePlain e.first e.value cs first plain)
          (omega (arith, none_yet)) in
      let (s2, r2) = finish_line k e1 more s1 (refl, rw first refl) (omega (arith, none_yet, l1)) in
      (
        s2,
        ap (λ n. read_line n fd (placed fd w e s) s.now) counts
            ∙ r1
            ∙ r2
            ∙ ap
                (λ l. done (
                  some (placed fd w (record e { line = (l ++ cs) ++ (0 ∷ b'\n' ∷ []) }) s2),
                  s2.now,
                ))
                empty,
      )
