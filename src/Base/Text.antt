-- ===== src/Base/Text.antt =====
-- Text as the bytes of a C string.
use Prim.Native.Nat.{ℕ, zero, suc, ◌+◌, ◌/◌, ◌%◌}
use Prim.Native.Char.{code}
use Prim.Native.String.{String}
use mathlib.Core.List.{List, [], ◌∷◌, ◌++◌}
use chroagh.Base.Tests.{◌==◌, if◌then◌else◌}

-- The bytes of an ASCII literal.
abbrev pub text : String → List ℕ
text String.[] = []
text (String.◌∷◌ c rest) = code c ∷ text rest

-- `%d` for a number of at most so many digits.
abbrev pub digits_below : ℕ → ℕ → List ℕ
digits_below zero n = []
digits_below (suc k) n =
    let high = digits_below k (n / 10) in
    (if n / 10 == 0 then [] else high) ++ ((b'0' + n % 10) ∷ [])

-- An `int` has at most ten digits.
abbrev pub decimal : ℕ → List ℕ
decimal n = digits_below 10 n

-- So many bytes of a number, the lowest first.
abbrev pub little_endian : ℕ → ℕ → List ℕ
little_endian zero n = []
little_endian (suc k) n = n % 256 ∷ little_endian k (n / 256)
