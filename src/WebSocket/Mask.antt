-- ===== src/WebSocket/Mask.antt =====
-- The unmasking of `socket_client_read_frame_data` in src/websocket.h: exclusive or in words of 32
-- bits, which is the masking of RFC 6455, byte by byte.
use mathlib.Core.Option
use chroagh.Base.{
  ℕ, zero, suc, ◌+◌, ◌*◌, ◌/◌, ◌%◌, ◌^◌, ◌≤◌, ◌<◌, bit_xor, ◌≡◌, refl, ap, ap₂, ◌∙◌, Option, none,
  some, List, [], ◌∷◌, ◌++◌, arith, length, replicate, take, drop, length-append, length-take,
  length-drop, take-append_le, take-take,
}
use chroagh.Base.Bits.{bit_xor_fields, bit_xor-lt_byte, bit_xor_twice, bit_xor-zero}

-- A `uint32_t` in memory: its lowest byte comes first.
abbrev pub word : ℕ → ℕ → ℕ → ℕ → ℕ
word b0 b1 b2 b3 = ((b3 * 2 ^ 8 + b2) * 2 ^ 8 + b1) * 2 ^ 8 + b0

-- `for (i = 0; i < len32; i++) buffer32[i] ^= maskkey;`; `none` is an access out of bounds.
unfoldable pub unmask_words : ℕ → ℕ → List ℕ → Option (List ℕ)
unmask_words zero maskkey buffer = some buffer
unmask_words (suc n) maskkey (b0 ∷ b1 ∷ b2 ∷ b3 ∷ rest) =
    let w = bit_xor (word b0 b1 b2 b3) maskkey in
    Option.map (λ r. w % 256 ∷ w / 256 % 256 ∷ w / 256 / 256 % 256 ∷ w / 256 / 256 / 256 % 256 ∷ r)
      (unmask_words n maskkey rest)
unmask_words (suc n) maskkey _ = none

-- RFC 6455, 5.3: octet i is masked with octet i mod 4 of the key.
abbrev pub mask : ℕ → ℕ → ℕ → ℕ → List ℕ → List ℕ
mask k0 k1 k2 k3 [] = []
mask k0 k1 k2 k3 (x ∷ xs) = bit_xor x k0 ∷ mask k1 k2 k3 k0 xs

abbrev pub IsBytes : List ℕ → Type 0
IsBytes [] = Unit
IsBytes (x ∷ xs) = (x < 256) × IsBytes xs

xor_word :
    (b0 b1 b2 b3 k0 k1 k2 k3 : ℕ)
    → b0 < 256
    → b1 < 256
    → b2 < 256
    → k0 < 256
    → k1 < 256
    → k2 < 256
    → bit_xor (word b0 b1 b2 b3) (word k0 k1 k2 k3)
      ≡ word (bit_xor b0 k0) (bit_xor b1 k1) (bit_xor b2 k2) (bit_xor b3 k3)
xor_word b0 b1 b2 b3 k0 k1 k2 k3 p0 p1 p2 q0 q1 q2 = ground (
  arith,
  bit_xor_fields 8 b3 k3 b2 k2,
  bit_xor_fields 8 (b3 * 256 + b2) (k3 * 256 + k2) b1 k1,
  bit_xor_fields 8 ((b3 * 256 + b2) * 256 + b1) ((k3 * 256 + k2) * 256 + k1) b0 k0,
)

word_bytes :
    (c0 c1 c2 c3 : ℕ) (r : List ℕ)
    → c0 < 256
    → c1 < 256
    → c2 < 256
    → c3 < 256
    → let w = word c0 c1 c2 c3 in
      ◌≡◌ {A = List ℕ}
        (w % 256 ∷ w / 256 % 256 ∷ w / 256 / 256 % 256 ∷ w / 256 / 256 / 256 % 256 ∷ r)
        (c0 ∷ c1 ∷ c2 ∷ c3 ∷ r)
word_bytes c0 c1 c2 c3 r p0 p1 p2 p3 = ground arith

-- Four bytes for each word.
abbrev pub quad : ℕ → ℕ
quad zero = zero
quad (suc n) = suc (suc (suc (suc (quad n))))

pub quad_lem : (n : ℕ) → quad n ≡ 4 * n
quad_lem zero = refl
quad_lem (suc n) = omega (arith, quad_lem n)

module _ (k0 k1 k2 k3 : ℕ) (q0 : k0 < 256) (q1 : k1 < 256) (q2 : k2 < 256) (q3 : k3 < 256) where
  unmask_words-mask :
      (n : ℕ) (buffer : List ℕ)
      → IsBytes buffer
      → quad n ≤ length buffer
      → unmask_words n (word k0 k1 k2 k3) buffer
        ≡ some (mask k0 k1 k2 k3 (take (quad n) buffer) ++ drop (quad n) buffer)
  unfolding unmask_words
  unmask_words-mask zero buffer bs h = refl
  unmask_words-mask (suc n) (b0 ∷ b1 ∷ b2 ∷ b3 ∷ rest) (p0, (p1, (p2, (p3, bs)))) h =
      rw (unmask_words-mask n rest bs (omega arith)) (
        rw (xor_word b0 b1 b2 b3 k0 k1 k2 k3 p0 p1 p2 q0 q1 q2) (
          ap some (
            word_bytes _ _ _ _ _ (bit_xor-lt_byte b0 k0 p0 q0) (bit_xor-lt_byte b1 k1 p1 q1)
              (bit_xor-lt_byte b2 k2 p2 q2) (bit_xor-lt_byte b3 k3 p3 q3))))
  unmask_words-mask (suc n) [] bs h = absurd (omega arith)
  unmask_words-mask (suc n) (_ ∷ []) bs h = absurd (omega arith)
  unmask_words-mask (suc n) (_ ∷ _ ∷ []) bs h = absurd (omega arith)
  unmask_words-mask (suc n) (_ ∷ _ ∷ _ ∷ []) bs h = absurd (omega arith)

take-mask :
    (k0 k1 k2 k3 n : ℕ) (xs : List ℕ) → take n (mask k0 k1 k2 k3 xs) ≡ mask k0 k1 k2 k3 (take n xs)
take-mask k0 k1 k2 k3 zero xs = refl
take-mask k0 k1 k2 k3 (suc n) [] = refl
take-mask k0 k1 k2 k3 (suc n) (x ∷ xs) = ap (λ t. bit_xor x k0 ∷ t) (take-mask k1 k2 k3 k0 n xs)

pub length-mask : (k0 k1 k2 k3 : ℕ) (xs : List ℕ) → length (mask k0 k1 k2 k3 xs) ≡ length xs
length-mask k0 k1 k2 k3 [] = refl
length-mask k0 k1 k2 k3 (x ∷ xs) = ap suc (length-mask k1 k2 k3 k0 xs)

pub IsBytes-append : (xs ys : List ℕ) → IsBytes xs → IsBytes ys → IsBytes (xs ++ ys)
IsBytes-append [] ys h k = k
IsBytes-append (x ∷ xs) ys h k = (h.0, IsBytes-append xs ys h.1 k)

pub IsBytes-take : (n : ℕ) (xs : List ℕ) → IsBytes xs → IsBytes (take n xs)
IsBytes-take zero xs h = tt
IsBytes-take (suc n) [] h = tt
IsBytes-take (suc n) (x ∷ xs) h = (h.0, IsBytes-take n xs h.1)

pub IsBytes-drop : (n : ℕ) (xs : List ℕ) → IsBytes xs → IsBytes (drop n xs)
IsBytes-drop zero xs h = h
IsBytes-drop (suc n) [] h = tt
IsBytes-drop (suc n) (x ∷ xs) h = IsBytes-drop n xs h.1

pub IsBytes-mask :
    (k0 k1 k2 k3 : ℕ) (xs : List ℕ)
    → k0 < 256
    → k1 < 256
    → k2 < 256
    → k3 < 256
    → IsBytes xs
    → IsBytes (mask k0 k1 k2 k3 xs)
IsBytes-mask k0 k1 k2 k3 [] q0 q1 q2 q3 b = tt
IsBytes-mask k0 k1 k2 k3 (x ∷ xs) q0 q1 q2 q3 b =
    (bit_xor-lt_byte x k0 b.0 q0, IsBytes-mask k1 k2 k3 k0 xs q1 q2 q3 q0 b.1)

pub mask_zero : (xs : List ℕ) → mask 0 0 0 0 xs ≡ xs
mask_zero [] = refl
mask_zero (x ∷ xs) = ap₂ ◌∷◌ (bit_xor-zero x) (mask_zero xs)

-- A buffer too short for the words is overrun.
pub unmask_words_short :
    (n maskkey : ℕ) (buffer : List ℕ) → length buffer < 4 * n → unmask_words n maskkey buffer ≡ none
unfolding unmask_words
unmask_words_short zero maskkey buffer h = absurd (omega arith)
unmask_words_short (suc n) maskkey (b0 ∷ b1 ∷ b2 ∷ b3 ∷ rest) h =
    rw (unmask_words_short n maskkey rest (omega arith))
unmask_words_short (suc n) maskkey [] h = refl
unmask_words_short (suc n) maskkey (_ ∷ []) h = refl
unmask_words_short (suc n) maskkey (_ ∷ _ ∷ []) h = refl
unmask_words_short (suc n) maskkey (_ ∷ _ ∷ _ ∷ []) h = refl

-- For bytes as key and as buffer, and room for `(size + 3) / 4` words, the loop over the words
-- succeeds: the first `size` bytes are masked as RFC 6455 says, and the buffer still holds as many
-- bytes.
pub unmask_words_lem :
    (k0 k1 k2 k3 size : ℕ) (buffer : List ℕ)
    → k0 < 256
    → k1 < 256
    → k2 < 256
    → k3 < 256
    → IsBytes buffer
    → 4 * ((size + 3) / 4) ≤ length buffer
    → (out : List ℕ) × (unmask_words ((size + 3) / 4) (word k0 k1 k2 k3) buffer ≡ some out)
      × (take size out ≡ mask k0 k1 k2 k3 (take size buffer))
      × (length out ≡ length buffer)
      × IsBytes out
unmask_words_lem k0 k1 k2 k3 size buffer q0 q1 q2 q3 bs h =
    let n = (size + 3) / 4 in
    let fits : quad n ≤ length buffer = omega (arith, quad_lem n) in
    let covers : size ≤ quad n = omega (arith, quad_lem n) in
    let masked = mask k0 k1 k2 k3 (take (quad n) buffer) in
    let len : length masked ≡ quad n =
      omega (arith, length-mask k0 k1 k2 k3 (take (quad n) buffer), length-take (quad n) buffer) in
    (
      masked ++ drop (quad n) buffer,
      unmask_words-mask k0 k1 k2 k3 q0 q1 q2 q3 n buffer bs fits,
      take-append_le size masked (drop (quad n) buffer) (omega (arith, len))
          ∙ take-mask k0 k1 k2 k3 size (take (quad n) buffer)
          ∙ ap (mask k0 k1 k2 k3) (take-take size (quad n) buffer covers),
      omega (arith, length-append masked (drop (quad n) buffer), length-drop (quad n) buffer, len),
      IsBytes-append masked (drop (quad n) buffer)
          (IsBytes-mask k0 k1 k2 k3 (take (quad n) buffer) q0 q1 q2 q3
            (IsBytes-take (quad n) buffer bs))
          (IsBytes-drop (quad n) buffer bs),
    )

-- Masking is its own inverse.
pub mask-mask :
    (k0 k1 k2 k3 : ℕ) (xs : List ℕ)
    → k0 < 256
    → k1 < 256
    → k2 < 256
    → k3 < 256
    → IsBytes xs
    → mask k0 k1 k2 k3 (mask k0 k1 k2 k3 xs) ≡ xs
mask-mask k0 k1 k2 k3 [] q0 q1 q2 q3 b = refl
mask-mask k0 k1 k2 k3 (x ∷ xs) q0 q1 q2 q3 b =
    ground (arith, bit_xor_twice x k0, mask-mask k1 k2 k3 k0 xs q1 q2 q3 q0)

pub replicate-IsBytes : (n : ℕ) → IsBytes (replicate n 0)
replicate-IsBytes zero = tt
replicate-IsBytes (suc n) = (omega arith, replicate-IsBytes n)
