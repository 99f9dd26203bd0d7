-- ===== src/Wm/Listing/Order.antt =====
-- The viewable windows are listed from front to back, and only the first line can have a star.
use chroagh.Base.{
  ℕ, zero, suc, ◌≤◌, ◌<◌, ◌≡◌, refl, sym, ap, ◌∙◌, inl, inr, Bool, true, false, Bool-cases,
  if◌then◌else◌, some, List, [], ◌∷◌, ◌++◌, arith, get_or, length, take, take_all, reverse,
}
use chroagh.Wm.Listing.{Output, Options, Screen, has_letter, print_line, list_loop, list_mapped}
use mathlib.Core.List.{reverse-append}

-- The viewable ones.
abbrev pub seen : (ℕ → Bool) → List ℕ → List ℕ
seen viewable [] = []
seen viewable (w ∷ ws) = if viewable w then w ∷ seen viewable ws else seen viewable ws

abbrev pub lines : Options → Screen → Bool → List ℕ → List Output
lines o screen mark [] = []
lines o screen mark (w ∷ ws) = print_line o screen mark w ++ lines o screen false ws

abbrev pub first : List ℕ → List ℕ
first [] = []
first (w ∷ ws) = w ∷ []

take_last :
    (n d : ℕ) (xs : List ℕ) → n < length xs → take (suc n) xs ≡ take n xs ++ (get_or xs n d ∷ [])
take_last n d [] h = absurd (omega arith)
take_last zero d (x ∷ xs) h = refl
take_last (suc n) d (x ∷ xs) h = ap (λ t. x ∷ t) (take_last n d xs (omega arith))

front_first :
    (n : ℕ) (xs : List ℕ)
    → n < length xs
    → reverse (take (suc n) xs) ≡ get_or xs n 0 ∷ reverse (take n xs)
front_first n xs h =
    ap reverse (take_last n 0 xs h) ∙ reverse-append (take n xs) (get_or xs n 0 ∷ [])

abbrev pub limited : Bool → List ℕ → List ℕ
limited one ws = if one then first ws else ws

-- A viewable window at index `n`, and one that is not.
shown_step :
    (n : ℕ) (children : List ℕ) (o : Options) (screen : Screen) (mark : Bool)
    → screen.viewable (get_or children n 0) ≡ true
    → list_loop (suc n) children o screen mark
      ≡ print_line o screen mark (get_or children n 0)
        ++ (if o.one then [] else list_loop n children o screen false)
unfolding list_loop
shown_step n children o screen mark shown = rw (shown, list_loop) refl

hidden_step :
    (n : ℕ) (children : List ℕ) (o : Options) (screen : Screen) (mark : Bool)
    → screen.viewable (get_or children n 0) ≡ false
    → list_loop (suc n) children o screen mark ≡ list_loop n children o screen mark
unfolding list_loop
hidden_step n children o screen mark hidden = rw (hidden, list_loop) refl

lines-limited :
    (one : Bool) (o : Options) (screen : Screen) (mark : Bool) (w : ℕ) (ws : List ℕ)
    → lines o screen mark (limited one (w ∷ ws))
      ≡ print_line o screen mark w ++ (if one then [] else lines o screen false (limited one ws))
lines-limited true o screen mark w ws = refl
lines-limited false o screen mark w ws = refl

limited_nil :
    (one : Bool) (o : Options) (screen : Screen) (mark : Bool)
    → lines o screen mark (limited one []) ≡ []
limited_nil true o screen mark = refl
limited_nil false o screen mark = refl

module _ (children : List ℕ) (o : Options) (screen : Screen) where
  abbrev listed : Bool → ℕ → List Output
  listed mark n =
      lines o screen mark (limited o.one (seen screen.viewable (reverse (take n children))))

  list_loop_lem :
      (n : ℕ) (mark : Bool)
      → n ≤ length children
      → list_loop n children o screen mark ≡ listed mark n
  unfolding list_loop
  list_loop_lem zero mark h = sym (limited_nil o.one o screen mark)
  list_loop_lem (suc n) mark h =
      let w = get_or children n 0 in
      let rest = seen screen.viewable (reverse (take n children)) in
      let step = λ (b : Bool). lines o screen mark (limited o.one (if b then w ∷ rest else rest)) in
      let order =
        ap (λ t. lines o screen mark (limited o.one (seen screen.viewable t)))
          (front_first n children h) in
      elim (Bool-cases (screen.viewable w)) [
        | inr hidden ↦
            hidden_step n children o screen mark hidden
            ∙ list_loop_lem n mark (omega arith)
            ∙ sym (order ∙ ap step hidden)
        | inl shown ↦
            shown_step n children o screen mark shown
            ∙ ap (λ t. print_line o screen mark w ++ (if o.one then [] else t))
                (list_loop_lem n false (omega arith))
            ∙ sym (order ∙ ap step shown ∙ lines-limited o.one o screen mark w rest)
      ]

abbrev pub options : List ℕ → Options
options arg = record {
  one = has_letter b'1' arg;
  asints = has_letter b'i' arg;
  names = has_letter b'n' arg;
}

answered :
    (arg : List ℕ) (screen : Screen) (children : List ℕ)
    → screen.query_tree ≡ some children
    → list_mapped arg screen
      ≡ (0, list_loop (length children) children (options arg) screen (has_letter b'm' arg))
unfolding list_mapped
answered arg screen children e = rw e refl

-- If the X server answers, the status is 0, and one line is printed for each viewable window, from
-- front to back, or for the first of them only with the letter 1 in the argument. With the letter m
-- the first line has a star, and no other line has one.
pub list_mapped_lem :
    (arg : List ℕ) (screen : Screen) (children : List ℕ)
    → screen.query_tree ≡ some children
    → list_mapped arg screen ≡ (
      0,
      lines
          (options arg)
          screen
          (has_letter b'm' arg)
          (limited (has_letter b'1' arg) (seen screen.viewable (reverse children))),
    )
list_mapped_lem arg screen children e =
    let whole = take_all (length children) children (omega arith) in
    answered arg screen children e
    ∙ ap (λ t. (0, t))
        (list_loop_lem children (options arg) screen (length children) (has_letter b'm' arg)
            (omega arith)
          ∙ ap
              (λ t.
                lines (options arg) screen (has_letter b'm' arg)
                  (limited (has_letter b'1' arg) (seen screen.viewable (reverse t))))
              whole)
