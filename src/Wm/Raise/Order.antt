-- ===== src/Wm/Raise/Order.antt =====
-- The new stacking order is a rotation: the requested window comes first, and the others keep their
-- order.
use native.Mathlib.Decide.{dec_lt}
use native.Mathlib.Nat.{mod-eq_of_lt, mod-eq-sub-mod}
use chroagh.Base.{
  ℕ, suc, ◌+◌, ◌-◌, ◌%◌, ◌≤◌, ◌<◌, ◌≡◌, refl, sym, ap, ◌∙◌, ◌⊎◌, inl, inr, List, [], ◌∷◌, ◌++◌,
  arith, length, get_elem?, set, replicate, reverse, length-append, length-set, length-replicate,
  length-reverse, get_elem?-set_self, get_elem?-set_ne, get_elem?-append_lt, get_elem?-append_ge,
  get_elem?-reverse, get_elem?_ext,
}
use chroagh.Wm.Raise.{fill_order, new_order}

-- Where child `i` of `n` goes.
abbrev place : ℕ → ℕ → ℕ → ℕ
place n rotate i = n - 1 - (i + rotate) % n

-- An index below `2 * n`, wrapped round at `n`.
wrap-cases : (x n : ℕ) → x < n + n → ((x < n) × (x % n ≡ x)) ⊎ ((n ≤ x) × (x % n ≡ x - n))
wrap-cases x n h = elim (dec_lt x n) [
  | yes p ↦ inl (p, mod-eq_of_lt p)
  | no p ↦ inr (omega arith, mod-eq-sub-mod (omega arith) ∙ mod-eq_of_lt (omega arith))
]

place-lt : (n rotate i : ℕ) → rotate < n → i < n → place n rotate i < n
place-lt n rotate i h k = omega arith

place-injective :
    (n rotate i j : ℕ) → rotate < n → i < n → j < n → place n rotate i ≡ place n rotate j → i ≡ j
place-injective n rotate i j h hi hj e =
    grind (arith, wrap-cases (i + rotate) n (omega arith), wrap-cases (j + rotate) n (omega arith))

module _ (n rotate src : ℕ) (h : rotate < n) (hs : src < n) where
  -- Once child `src` has been placed, its place is not written again.
  fill_order_later :
      (i : ℕ) (children order : List ℕ)
      → i + length children ≡ n
      → src < i
      → get_elem? (fill_order i n rotate children order) (place n rotate src)
        ≡ get_elem? order (place n rotate src)
  unfolding fill_order
  fill_order_later i [] order e lt = refl
  fill_order_later i (c ∷ children) order e lt =
      fill_order_later (i + 1) children (set order (place n rotate i) c) (omega arith) (omega arith)
      ∙ get_elem?-set_ne order (place n rotate i) (place n rotate src) c
          (λ same. absurd (omega (arith, place-injective n rotate i src h (omega arith) hs same)))

  fill_order_places :
      (i : ℕ) (children order : List ℕ)
      → i + length children ≡ n
      → i ≤ src
      → length order ≡ n
      → get_elem? (fill_order i n rotate children order) (place n rotate src)
        ≡ get_elem? children (src - i)
  unfolding fill_order
  fill_order_places i [] order e le len = absurd (omega arith)
  fill_order_places i (c ∷ children) order e le len = elim (dec_lt i src) [
    | yes p ↦
        let e' : src - i ≡ suc (src - (i + 1)) = omega arith in
        fill_order_places (i + 1) children (set order (place n rotate i) c) (omega arith)
          (omega arith) (length-set order (place n rotate i) c ∙ len)
        ∙ ap (λ t. get_elem? (c ∷ children) t) (sym e')
    | no p ↦
        let same : i ≡ src = omega arith in
        let e' : src - i ≡ 0 = omega arith in
        fill_order_later (i + 1) children (set order (place n rotate i) c) (omega arith)
          (omega arith)
        ∙ ap (λ t. get_elem? (set order (place n rotate t) c) (place n rotate src)) same
        ∙ get_elem?-set_self order (place n rotate src) c (omega arith)
        ∙ ap (λ t. get_elem? (c ∷ children) t) (sym e')
  ]

length-fill_order :
    (i n rotate : ℕ) (children order : List ℕ)
    → length (fill_order i n rotate children order) ≡ length order
unfolding fill_order
length-fill_order i n rotate [] order = refl
length-fill_order i n rotate (c ∷ children) order =
    length-fill_order (i + 1) n rotate children (set order (place n rotate i) c)
    ∙ length-set order (place n rotate i) c

-- The child that comes to stand at index `j` of the new order: counted from the back, the windows
-- above the requested one are moved behind the others.
module _ (front above : List ℕ) (some_front : 0 < length front) where
  abbrev count : ℕ
  count = length (front ++ above)

  count_lem : count ≡ length front + length above
  count_lem = length-append front above

  new_order_at :
      (src j : ℕ)
      → src < count
      → place count (length above) src ≡ j
      → get_elem? (new_order (length above) (front ++ above)) j ≡ get_elem? (front ++ above) src
  unfolding new_order
  new_order_at src j h e =
      ap (λ t. get_elem? (new_order (length above) (front ++ above)) t) (sym e)
      ∙ fill_order_places count (length above) src (omega (arith, count_lem)) h 0 (front ++ above)
          (replicate count 0) (omega arith) (omega arith) (length-replicate count 0)
      ∙ ap (λ t. get_elem? (front ++ above) t) (omega arith)

  new_order-get_elem? :
      (j : ℕ)
      → j < count
      → get_elem? (new_order (length above) (front ++ above)) j
        ≡ get_elem? (above ++ front) (count - 1 - j)
  new_order-get_elem? j h = elim (dec_lt (count - 1 - j) (length above)) [
    | yes p ↦
        let src : ℕ = count - 1 - j + length front in
        new_order_at src j (omega (arith, count_lem)) (
          ground
            (arith, count_lem, wrap-cases (src + length above) count (omega (arith, count_lem))))
        ∙ get_elem?-append_ge front above src (omega arith)
        ∙ ap (λ t. get_elem? above t) (omega arith)
        ∙ sym (get_elem?-append_lt above front (count - 1 - j) p)
    | no p ↦
        let src : ℕ = count - 1 - j - length above in
        new_order_at src j (omega (arith, count_lem)) (
          ground
            (arith, count_lem, wrap-cases (src + length above) count (omega (arith, count_lem))))
        ∙ get_elem?-append_lt front above src (omega (arith, count_lem))
        ∙ sym (get_elem?-append_ge above front (count - 1 - j) (omega arith))
  ]

  -- With the windows `front` up to the requested one and those `above` it, from back to front, the
  -- order given to `XRestackWindows`, from front to back, is the reverse of `above` below `front`.
  pub new_order-rotation : new_order (length above) (front ++ above) ≡ reverse (above ++ front)
  unfolding new_order
  new_order-rotation =
      let len : length (new_order (length above) (front ++ above)) ≡ count =
        length-fill_order 0 count (length above) (front ++ above) (replicate count 0)
        ∙ length-replicate count 0 in
      let len' : length (above ++ front) ≡ count =
        omega (arith, count_lem, length-append above front) in
      get_elem?_ext (new_order (length above) (front ++ above)) (reverse (above ++ front))
        (len ∙ sym (length-reverse (above ++ front) ∙ len'))
        (λ j h.
          new_order-get_elem? j (omega (arith, len))
          ∙ ap (λ n. get_elem? (above ++ front) (n - 1 - j)) (sym len')
          ∙ sym (get_elem?-reverse (above ++ front) j (omega (arith, len, len'))))
