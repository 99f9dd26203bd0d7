-- ===== src/FbServer/Keys/Removal.antt =====
-- `kb_remove` gives up one entry of the key, if there is one, and no other.
use native.Mathlib.Decide.{dec_lt}
use chroagh.Base.{
  ℕ, ◌+◌, ◌-◌, ◌≤◌, ◌<◌, ◌≡◌, refl, sym, ap, ◌∙◌, inl, inr, Bool-cases, ltb, ltb_not, lt→ltb, List,
  [], ◌∷◌, ◌++◌, arith, length, length-append, length-set, length-take, append_assoc, set, get_or,
  take,
}
use chroagh.FbServer.Keys.{KeyButton, is_key, remove_at, remove_loop}
use chroagh.FbServer.Keys.Set.{
  is, count, count-append, is_key→same, count-set, count-init, get_or-set_ne, get_or-append_at,
}

count-remove_at :
    (x k : KeyButton) (i : ℕ) (ps : List KeyButton)
    → i < length ps
    → count x (remove_at i ps k) + is x (get_or ps i k) ≡ count x ps
unfolding remove_at
count-remove_at x k i ps h = elim (dec_lt i (length ps - 1)) [
  | yes p ↦
      let moved = set ps i (get_or ps (length ps - 1) k) in
      let a =
        count-init x k (length ps - 1) moved
          (omega (arith, length-set ps i (get_or ps (length ps - 1) k))) in
      let b = count-set x (get_or ps (length ps - 1) k) k i ps h in
      let c =
        ap (is x)
          (get_or-set_ne ps i (length ps - 1) (get_or ps (length ps - 1) k) k (omega arith)) in
      rw (lt→ltb i (length ps - 1) p) (omega (arith, a, b, c))
  | no p ↦
      let at_last : i ≡ length ps - 1 = omega arith in
      let a = count-init x k (length ps - 1) ps (omega arith) in
      rw (ltb_not i (length ps - 1) (omega arith))
        (ap (λ t. count x (take (length ps - 1) ps) + is x (get_or ps t k)) at_last ∙ a)
]

absent : (x k : KeyButton) (ps : List KeyButton) → count k ps ≡ 0 → count x ps - is x k ≡ count x ps
absent x k ps h = elim (Bool-cases (is_key k x)) [
  | inl same ↦
      let e : count x ps ≡ 0 = ap (λ t. count t ps) (sym (is_key→same k x same)) ∙ h in omega arith
  | inr other ↦ ground arith
]

-- The entries before `rest` are not the key's.
count-remove_loop :
    (x k : KeyButton) (before rest : List KeyButton)
    → count k before ≡ 0
    → count x (remove_loop (length before) k rest (before ++ rest))
      ≡ count x (before ++ rest) - is x k
unfolding remove_loop
count-remove_loop x k before [] none_before =
    omega (arith, count-append x before [], absent x k before none_before)
count-remove_loop x k before (p ∷ rest) none_before = elim (Bool-cases (is_key p k)) [
  | inl found ↦
      let same = is_key→same p k found in
      let r =
        count-remove_at x k (length before) (before ++ (p ∷ rest))
          (omega (arith, length-append before (p ∷ rest))) in
      let at : is x (get_or (before ++ (p ∷ rest)) (length before) k) ≡ is x k =
        ap (is x) (get_or-append_at before rest p k ∙ same) in
      rw (found, remove_loop) (omega (arith, r, at))
  | inr other ↦
      let none_before' : count k (before ++ (p ∷ [])) ≡ 0 =
        ground (arith, count-append k before (p ∷ [])) in
      let e = append_assoc before (p ∷ []) rest in
      let len : length (before ++ (p ∷ [])) ≡ length before + 1 =
        omega (arith, length-append before (p ∷ [])) in
      let r = count-remove_loop x k (before ++ (p ∷ [])) rest none_before' in
      rw (other, remove_loop) (rw (len, e) at r)
]

-- One entry of the key is given up, if there is one, and no other.
pub count-removal :
    (x k : KeyButton) (ps : List KeyButton) → count x (remove_loop 0 k ps ps) ≡ count x ps - is x k
count-removal x k ps = count-remove_loop x k [] ps refl

length-remove_at :
    (i : ℕ) (k : KeyButton) (ps : List KeyButton) → length (remove_at i ps k) ≤ length ps
unfolding remove_at
length-remove_at i k ps = elim (Bool-cases (ltb i (length ps - 1))) [
  | inl p ↦ rw p (
      omega (
        arith,
        length-take (length ps - 1) (set ps i (get_or ps (length ps - 1) k)),
        length-set ps i (get_or ps (length ps - 1) k),
      ))
  | inr p ↦ rw p (omega (arith, length-take (length ps - 1) ps))
]

pub length-remove_loop :
    (i : ℕ) (k : KeyButton) (rest ps : List KeyButton)
    → length (remove_loop i k rest ps) ≤ length ps
unfolding remove_loop
length-remove_loop i k [] ps = omega arith
length-remove_loop i k (p ∷ rest) ps =
    ground (arith, length-remove_at i k ps, length-remove_loop (i + 1) k rest ps)
