-- ===== src/Base/Indexing.antt =====
-- Lists by index: appended, reversed, and compared element by element.
use Prim.Native.Nat.{ℕ, zero, suc, ◌-◌, ◌≤◌, ◌<◌}
use mathlib.Core.Path.{◌≡◌, refl, sym, ap, ap₂, ◌∙◌}
use mathlib.Core.List.{List, [], ◌∷◌, ◌++◌, reverse, reverse-append}
use mathlib.Core.Option.{none, some-injective}
use native.Mathlib.Decide.{dec_lt}
use native.Mathlib.Omega.{arith}
use chroagh.Base.Lists.{length, get_elem?, length-append}

module _ {ℓ} {A : Type ℓ} where
  pub get_elem?-append_lt :
      (xs ys : List A) (i : ℕ) → i < length xs → get_elem? (xs ++ ys) i ≡ get_elem? xs i
  get_elem?-append_lt [] ys i h = absurd (omega arith)
  get_elem?-append_lt (x ∷ xs) ys zero h = refl
  get_elem?-append_lt (x ∷ xs) ys (suc i) h = get_elem?-append_lt xs ys i (omega arith)

  pub get_elem?-append_ge :
      (xs ys : List A) (i : ℕ)
      → length xs ≤ i
      → get_elem? (xs ++ ys) i ≡ get_elem? ys (i - length xs)
  get_elem?-append_ge [] ys i h = ap (λ t. get_elem? ys t) (omega arith)
  get_elem?-append_ge (x ∷ xs) ys zero h = absurd (omega arith)
  get_elem?-append_ge (x ∷ xs) ys (suc i) h =
      get_elem?-append_ge xs ys i (omega arith) ∙ ap (λ t. get_elem? ys t) (omega arith)

  pub get_elem?_beyond : (xs : List A) (i : ℕ) → length xs ≤ i → get_elem? xs i ≡ none
  get_elem?_beyond [] i h = refl
  get_elem?_beyond (x ∷ xs) zero h = absurd (omega arith)
  get_elem?_beyond (x ∷ xs) (suc i) h = get_elem?_beyond xs i (omega arith)

  pub length-reverse : (xs : List A) → length (reverse xs) ≡ length xs
  length-reverse [] = refl
  length-reverse (x ∷ xs) =
      ap length (reverse-append (x ∷ []) xs)
      ∙ omega (arith, length-append (reverse xs) (x ∷ []), length-reverse xs)

  pub get_elem?-reverse :
      (xs : List A) (i : ℕ)
      → i < length xs
      → get_elem? (reverse xs) i ≡ get_elem? xs (length xs - 1 - i)
  get_elem?-reverse [] i h = absurd (omega arith)
  get_elem?-reverse (x ∷ xs) i h =
      ap (λ t. get_elem? t i) (reverse-append (x ∷ []) xs) ∙ elim (dec_lt i (length xs)) [
        | yes p ↦
            let e : length (x ∷ xs) - 1 - i ≡ suc (length xs - 1 - i) = omega arith in
            get_elem?-append_lt (reverse xs) (x ∷ []) i (omega (arith, length-reverse xs))
            ∙ get_elem?-reverse xs i p
            ∙ ap (λ t. get_elem? (x ∷ xs) t) (sym e)
        | no p ↦
            let e : i - length (reverse xs) ≡ 0 = omega (arith, length-reverse xs) in
            let f : length (x ∷ xs) - 1 - i ≡ 0 = omega arith in
            get_elem?-append_ge (reverse xs) (x ∷ []) i (omega (arith, length-reverse xs))
            ∙ ap (λ t. get_elem? (x ∷ []) t) e
            ∙ ap (λ t. get_elem? (x ∷ xs) t) (sym f)
      ]

  -- Lists of one length with the same elements are equal.
  pub get_elem?_ext :
      (xs ys : List A)
      → length xs ≡ length ys
      → ((i : ℕ) → i < length xs → get_elem? xs i ≡ get_elem? ys i)
      → xs ≡ ys
  get_elem?_ext [] [] e h = refl
  get_elem?_ext [] (y ∷ ys) e h = absurd (omega arith)
  get_elem?_ext (x ∷ xs) [] e h = absurd (omega arith)
  get_elem?_ext (x ∷ xs) (y ∷ ys) e h =
      ap₂ ◌∷◌ (some-injective x y (h 0 (omega arith)))
        (get_elem?_ext xs ys (omega arith) (λ i p. h (suc i) (omega arith)))
