-- ===== src/Io/Write.antt =====
-- `block_write` returns the size when all bytes have gone out, and fails before the last byte.
use chroagh.Base.{
  ℕ, zero, suc, ◌+◌, ◌≤◌, ◌<◌, ◌≡◌, Option, none, some, List, [], ◌∷◌, ◌⊎◌, arith, length,
}
use chroagh.Io.{Accept, took, refused, write, write_loop}

-- A script in which every write takes something.
abbrev pub IsWilling : List Accept → Type 0
IsWilling [] = Unit
IsWilling (refused ∷ a) = ⊥
IsWilling (took k ∷ a) = (0 < k) × IsWilling a

abbrev Whole : List ℕ → Option ℕ × ℕ × List Accept → Type 0
Whole buffer r = (r.0 ≡ some (length buffer)) × (r.1 ≡ length buffer)

abbrev Short : List ℕ → Option ℕ × ℕ × List Accept → Type 0
Short buffer r = (r.0 ≡ none) × (r.1 < length buffer)

pub write_loop-cases :
    (fuel : ℕ) (buffer : List ℕ) (tot : ℕ) (a : List Accept)
    → tot ≤ length buffer
    → length buffer < tot + fuel
    → Whole buffer (write_loop fuel buffer tot a) ⊎ Short buffer (write_loop fuel buffer tot a)
unfolding write_loop write
write_loop-cases zero buffer tot a h f = absurd (omega arith)
write_loop-cases (suc fuel) buffer tot [] h f =
    ground (arith, write_loop-cases fuel buffer (length buffer) [])
write_loop-cases (suc fuel) buffer tot (refused ∷ a) h f = ground arith
write_loop-cases (suc fuel) buffer tot (took zero ∷ a) h f = ground arith
write_loop-cases (suc fuel) buffer tot (took (suc k) ∷ a) h f = ground (
  arith,
  write_loop-cases fuel buffer (tot + suc k) a,
  write_loop-cases fuel buffer (length buffer) a,
)

pub write_loop_willing :
    (fuel : ℕ) (buffer : List ℕ) (tot : ℕ) (a : List Accept)
    → tot ≤ length buffer
    → length buffer < tot + fuel
    → IsWilling a
    → Whole buffer (write_loop fuel buffer tot a)
unfolding write_loop write
write_loop_willing zero buffer tot a h f w = absurd (omega arith)
write_loop_willing (suc fuel) buffer tot [] h f w =
    ground (arith, write_loop_willing fuel buffer (length buffer) [])
write_loop_willing (suc fuel) buffer tot (refused ∷ a) h f w = absurd w
write_loop_willing (suc fuel) buffer tot (took k ∷ a) h f w = ground (
  arith,
  write_loop_willing fuel buffer (tot + k) a,
  write_loop_willing fuel buffer (length buffer) a,
)
