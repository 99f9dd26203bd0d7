-- ===== src/Kiwi/Socket/Attempts.antt =====
-- How often a connection is tried.
use chroagh.Base.{
  ℕ, zero, suc, ◌+◌, ◌-◌, ◌≡◌, ap, inl, inr, Bool-cases, ltb, false, List, [], ◌∷◌, min, arith,
}
use chroagh.Kiwi.State.{Kiwi, Effect, control, calls_after, socket_connect}
use chroagh.Kiwi.Socket.{on_socket_connect_completion, max_retry}

-- So many attempts that fail.
abbrev pub failures : ℕ → Kiwi → Kiwi
failures zero s = s
failures (suc n) s = on_socket_connect_completion false (failures n s)

-- The attempts that are still to come, and the messages that tell of the end.
abbrev pub attempts : List Effect → ℕ
attempts [] = 0
attempts (calls_after ms socket_connect ∷ es) = suc (attempts es)
attempts (_ ∷ es) = attempts es

abbrev pub endings : List Effect → ℕ
endings [] = 0
endings (control type state ∷ es) = suc (endings es)
endings (_ ∷ es) = endings es

abbrev Tried : ℕ → Kiwi → Type 0
Tried n s = (s.retry ≡ n) × (attempts s.effects ≡ min n 2) × (endings s.effects ≡ n - 2)

failed-Tried : (n : ℕ) (s : Kiwi) → Tried n s → Tried (suc n) (on_socket_connect_completion false s)
unfolding on_socket_connect_completion
failed-Tried n s (r, a, e) =
    let more : s.retry + 1 ≡ suc n = omega (arith, r) in
    elim (Bool-cases (ltb (s.retry + 1) max_retry)) [
      | inl few ↦ rw few (more, ground (arith, few, r, a), ground (arith, few, r, e))
      | inr many ↦ rw many (more, ground (arith, many, r, a), ground (arith, many, r, e))
    ]

-- After n failed connections since the start, as many attempts as failures were set up but at most
-- two, and each failure after the second told the page of the end.
pub failures_lem :
    (n : ℕ) (s : Kiwi)
    → s.retry ≡ 0
    → s.effects ≡ []
    → (attempts (failures n s).effects ≡ min n 2) × (endings (failures n s).effects ≡ n - 2)
failures_lem n s fresh new = let (_, a, e) = tried n in (a, e)
  where
    tried : (m : ℕ) → Tried m (failures m s)
    tried zero = (fresh, ap attempts new, ap endings new)
    tried (suc m) = failed-Tried m (failures m s) (tried m)
