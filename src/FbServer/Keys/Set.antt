-- ===== src/FbServer/Keys/Set.antt =====
-- The array of pressed keys as a set: how often it holds each key.
use chroagh.Base.{
  ℕ, zero, suc, ◌+◌, ◌<◌, ◌≡◌, ◌≢◌, refl, ap, ap₂, true, false, if◌then◌else◌, List, [], ◌∷◌, ◌++◌,
  arith, length, set, get_or, take,
}
use chroagh.FbServer.Keys.{KeyButtonType, mouse, keyboard, KeyButton, type_eq, is_key, find_pressed}

-- 1 if the entry is for the key.
abbrev pub is : KeyButton → KeyButton → ℕ
is x p = if is_key p x then 1 else 0

abbrev pub count : KeyButton → List KeyButton → ℕ
count x [] = 0
count x (p ∷ ps) = is x p + count x ps

pub count-append :
    (x : KeyButton) (ps qs : List KeyButton) → count x (ps ++ qs) ≡ count x ps + count x qs
count-append x [] qs = omega arith
count-append x (p ∷ ps) qs = omega (arith, count-append x ps qs)

type_eq_iff : (a b : KeyButtonType) → type_eq a b ≡ true → a ≡ b
type_eq_iff mouse mouse h = refl
type_eq_iff mouse keyboard h = absurd (ground arith)
type_eq_iff keyboard mouse h = absurd (ground arith)
type_eq_iff keyboard keyboard h = refl

type_eq_refl : (a : KeyButtonType) → type_eq a a ≡ true
type_eq_refl mouse = refl
type_eq_refl keyboard = refl

-- Entries that count for the same key count for the same keys.
pub is_key→same : (p k : KeyButton) → is_key p k ≡ true → p ≡ k
is_key→same p k h =
    let t : type_eq p.type k.type ≡ true = ground arith in
    let c : p.code ≡ k.code = ground arith in
    ap₂ (λ a b. record { type = a; code = b }) (type_eq_iff p.type k.type t) c

pub is_key_refl : (k : KeyButton) → is_key k k ≡ true
is_key_refl k = ground (arith, type_eq_refl k.type)

pub find_pressed-true :
    (k : KeyButton) (ps : List KeyButton) → find_pressed k ps ≡ true → 0 < count k ps
unfolding find_pressed
find_pressed-true k [] h = absurd (ground arith)
find_pressed-true k (p ∷ ps) h = ground (arith, find_pressed-true k ps)

pub find_pressed-false :
    (k : KeyButton) (ps : List KeyButton) → find_pressed k ps ≡ false → count k ps ≡ 0
unfolding find_pressed
find_pressed-false k [] h = refl
find_pressed-false k (p ∷ ps) h = ground (arith, find_pressed-false k ps)

pub count-set :
    (x v d : KeyButton) (i : ℕ) (ps : List KeyButton)
    → i < length ps
    → count x (set ps i v) + is x (get_or ps i d) ≡ count x ps + is x v
count-set x v d i [] h = absurd (omega arith)
count-set x v d zero (p ∷ ps) h = omega arith
count-set x v d (suc i) (p ∷ ps) h = omega (arith, count-set x v d i ps (omega arith))

-- All but the last entry.
pub count-init :
    (x d : KeyButton) (n : ℕ) (ps : List KeyButton)
    → length ps ≡ suc n
    → count x (take n ps) + is x (get_or ps n d) ≡ count x ps
count-init x d n [] h = absurd (omega arith)
count-init x d zero (p ∷ []) h = omega arith
count-init x d zero (p ∷ q ∷ ps) h = absurd (omega arith)
count-init x d (suc n) (p ∷ ps) h = omega (arith, count-init x d n ps (omega arith))

pub get_or-set_ne :
    (ps : List KeyButton) (i j : ℕ) (v d : KeyButton)
    → i ≢ j
    → get_or (set ps i v) j d ≡ get_or ps j d
get_or-set_ne [] i j v d h = refl
get_or-set_ne (p ∷ ps) zero zero v d h = absurd (h refl)
get_or-set_ne (p ∷ ps) zero (suc j) v d h = refl
get_or-set_ne (p ∷ ps) (suc i) zero v d h = refl
get_or-set_ne (p ∷ ps) (suc i) (suc j) v d h = get_or-set_ne ps i j v d (λ e. h (ap suc e))

pub get_or-append_at :
    (ps qs : List KeyButton) (q d : KeyButton) → get_or (ps ++ (q ∷ qs)) (length ps) d ≡ q
get_or-append_at [] qs q d = refl
get_or-append_at (p ∷ ps) qs q d = get_or-append_at ps qs q d
