-- ===== src/Io/Read.antt =====
-- `block_read` depends on the bytes that arrive, not on the segments in which they arrive.
use chroagh.Base.{
  ℕ, zero, suc, ◌+◌, ◌-◌, ◌≤◌, ◌<◌, ◌≡◌, refl, sym, ap, ◌∙◌, Option, none, some, List, [], ◌∷◌,
  ◌++◌, ◌⊎◌, inl, inr, arith, length, take, drop, append_assoc, append-nil, take-append-drop,
  length-take, length-append, take-append_ge, drop-append_ge,
}
use chroagh.Io.{Segment, bytes, failure, put_back, read, read_loop}

-- The bytes that can be read before an error or the end of file.
abbrev pub available : List Segment → List ℕ
available [] = []
available (failure ∷ s) = []
available (bytes [] ∷ s) = []
available (bytes (x ∷ b) ∷ s) = (x ∷ b) ++ available s

-- A read that brings bytes brings the next ones, and no more than were asked for.
pub record Brings (count : ℕ) (s : List Segment) : Type 0 where
  pub x : ℕ
  pub xs : List ℕ
  pub rest : List Segment
  pub result : read count s ≡ (some (x ∷ xs), rest)
  pub fits : length xs < count
  pub split : available s ≡ (x ∷ xs) ++ available rest

abbrev pub Blocked : ℕ → List Segment → Type 0
Blocked count s = (available s ≡ []) × (((read count s).0 ≡ none) ⊎ ((read count s).0 ≡ some []))

available-put_back : (b : List ℕ) (s : List Segment) → available (put_back b s) ≡ b ++ available s
available-put_back [] s = refl
available-put_back (x ∷ b) s = refl

pub read-cases : (count : ℕ) (s : List Segment) → Brings (suc count) s ⊎ Blocked (suc count) s
unfolding read
read-cases count [] = inr (refl, inr refl)
read-cases count (failure ∷ s) = inr (refl, inl refl)
read-cases count (bytes [] ∷ s) = inr (refl, inr refl)
read-cases count (bytes (x ∷ b) ∷ s) = inl (record {
  x = x;
  xs = take count b;
  rest = put_back (drop count b) s;
  result = refl;
  fits = omega (arith, length-take count b);
  split =
      ap (λ t. x ∷ t)
        (rw available-put_back (
          ap (λ t. t ++ available s) (sym (take-append-drop count b))
          ∙ append_assoc (take count b) (drop count b) (available s)));
})

-- The loop of `block_read` has filled the buffer that held `got` with the next `need` bytes.
record Fills (need : ℕ) (got : List ℕ) (s : List Segment) (r : Option (List ℕ) × List Segment)
    : Type 0 where
  full : r.0 ≡ some (got ++ take need (available s))
  left : available r.1 ≡ drop need (available s)

module _ (fuel size need : ℕ) (got : List ℕ) (s : List Segment)
    (counts : length got + suc need ≡ size) where
  read_loop-Brings :
      (b : Brings (suc need) s)
      → read_loop (suc fuel) size got s ≡ read_loop fuel size (got ++ (b.x ∷ b.xs)) b.rest
  unfolding read_loop
  read_loop-Brings b =
      let count : size - length got ≡ suc need = omega arith in
      ground (arith, b.result, ap (λ c. read c s) count)

  read_loop-Blocked : Blocked (suc need) s → (read_loop (suc fuel) size got s).0 ≡ none
  unfolding read_loop
  read_loop-Blocked b =
      let count : size - length got ≡ suc need = omega arith in
      ground (arith, b.1, ap (λ c. read c s) count)

module _ (x need : ℕ) (got xs av av' : List ℕ) (split : av ≡ (x ∷ xs) ++ av')
    (fits : length xs < suc need) where
  take_split : take (suc need) av ≡ (x ∷ xs) ++ take (need - length xs) av'
  take_split = rw split (ap (λ t. x ∷ t) (take-append_ge need xs av' (omega arith)))

  drop_split : drop (suc need) av ≡ drop (need - length xs) av'
  drop_split = rw split (drop-append_ge need xs av' (omega arith))

  length_split : length av ≡ suc (length xs + length av')
  length_split = rw split (ap suc (length-append xs av'))

read_loop-Fills :
    (fuel size need : ℕ) (got : List ℕ) (s : List Segment)
    → need < fuel
    → length got + need ≡ size
    → need ≤ length (available s)
    → Fills need got s (read_loop fuel size got s)
read_loop-Fills zero size need got s f e h = absurd (omega arith)
read_loop-Fills (suc fuel) size zero got s f e h =
    let stop : read_loop (suc fuel) size got s ≡ (some got, s) = unfold read_loop in ground arith in
    rw stop (record { full = ap some (sym (append-nil got)); left = refl })
read_loop-Fills (suc fuel) size (suc need) got s f e h = elim (read-cases need s) [
  | inl b ↦
      let more = length_split b.x need got b.xs (available s) (available b.rest) b.split b.fits in
      let rest =
        read_loop-Fills fuel size (need - length b.xs) (got ++ (b.x ∷ b.xs)) b.rest
          (omega (arith, b.fits)) (omega (arith, b.fits, length-append got (b.x ∷ b.xs)))
          (omega (arith, b.fits, more)) in
      rw (read_loop-Brings fuel size need got s e b) (record {
        full =
            rest.full
            ∙ ap some (
                append_assoc got (b.x ∷ b.xs) (take (need - length b.xs) (available b.rest))
                ∙ ap (λ t. got ++ t)
                    (sym (take_split b.x need got b.xs _ (available b.rest) b.split b.fits)));
        left = rest.left ∙ sym (drop_split b.x need got b.xs _ (available b.rest) b.split b.fits);
      })
  | inr blocked ↦ absurd (omega (arith, ap length blocked.0))
]

read_loop_short :
    (fuel size need : ℕ) (got : List ℕ) (s : List Segment)
    → length got + need ≡ size
    → length (available s) < need
    → (read_loop fuel size got s).0 ≡ none
read_loop_short zero size need got s e h = unfold read_loop in refl
read_loop_short (suc fuel) size zero got s e h = absurd (omega arith)
read_loop_short (suc fuel) size (suc need) got s e h = elim (read-cases need s) [
  | inl b ↦
      let more = length_split b.x need got b.xs (available s) (available b.rest) b.split b.fits in
      rw (read_loop-Brings fuel size need got s e b) (
        read_loop_short fuel size (need - length b.xs) (got ++ (b.x ∷ b.xs)) b.rest
          (omega (arith, b.fits, length-append got (b.x ∷ b.xs))) (omega (arith, b.fits, more)))
  | inr blocked ↦ read_loop-Blocked fuel size need got s e blocked
]

-- With enough bytes on the way the loop returns the next `size` of them and leaves the others.
pub read_loop_full :
    (size : ℕ) (s : List Segment)
    → size ≤ length (available s)
    → ((read_loop (suc size) size [] s).0 ≡ some (take size (available s)))
      × (available (read_loop (suc size) size [] s).1 ≡ drop size (available s))
read_loop_full size s h =
    let r = read_loop-Fills (suc size) size size [] s (omega arith) (omega arith) h in
    (r.full, r.left)

-- With fewer it fails.
pub read_loop-none :
    (size : ℕ) (s : List Segment)
    → length (available s) < size
    → (read_loop (suc size) size [] s).0 ≡ none
read_loop-none size s h = read_loop_short (suc size) size size [] s (omega arith) h
