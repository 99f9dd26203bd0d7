-- ===== src/WebSocket/Receive/Length.antt =====
-- The loop over the extended length reads back a big-endian number.
use chroagh.Base.{
  ℕ, zero, suc, ◌+◌, ◌*◌, ◌/◌, ◌%◌, ◌^◌, ◌<◌, bit_or, ◌≡◌, sym, ap, ◌∙◌, List, ◌∷◌, arith,
}
use native.Mathlib.Nat.{pow-suc, div-div-eq-div-mul, div-le_self, div-one, div-eq_of_lt}
use chroagh.Base.Bits.{bit_or_shifted}
use chroagh.WebSocket.Frame.{big_endian}
use chroagh.WebSocket.Receive.{extended_length}

shift_in : (acc b : ℕ) → acc < 2 ^ 56 → b < 256 → bit_or (acc * 2 ^ 8 % 2 ^ 64) b ≡ acc * 256 + b
shift_in acc b h k =
    let e : acc * 2 ^ 8 % 2 ^ 64 ≡ acc * 2 ^ 8 = omega arith in rw e (bit_or_shifted 8 acc b k)

extended_length-cons :
    (acc b : ℕ) (bs : List ℕ)
    → acc < 2 ^ 56
    → b < 256
    → extended_length acc (b ∷ bs) ≡ extended_length (acc * 256 + b) bs
unfolding extended_length
extended_length-cons acc b bs h k = ap (λ t. extended_length t bs) (shift_in acc b h k)

high_digits : (k n : ℕ) → n / 256 ^ suc k ≡ n / 256 ^ k / 256
high_digits k n = ap (λ t. n / t) (pow-suc 256 k) ∙ sym (div-div-eq-div-mul n (256 ^ k) 256)

-- After the digits above the `k` lowest have been read, the others complete the number.
read_back : (k n : ℕ) → n < 2 ^ 64 → extended_length (n / 256 ^ k) (big_endian k n) ≡ n
read_back zero n h = unfold extended_length in div-one n
read_back (suc k) n h =
    let high = high_digits k n in
    let small : n / 256 ^ suc k < 2 ^ 56 = omega (arith, high, div-le_self n (256 ^ k)) in
    let joined : n / 256 ^ suc k * 256 + n / 256 ^ k % 256 ≡ n / 256 ^ k = omega (arith, high) in
    extended_length-cons (n / 256 ^ suc k) (n / 256 ^ k % 256) (big_endian k n) small (omega arith)
    ∙ ap (λ t. extended_length t (big_endian k n)) joined
    ∙ read_back k n h

-- The big-endian form in `k` bytes of a number that fits them, and 64 bits, is read as the number.
pub extended_length-big_endian :
    (k n : ℕ) → n < 2 ^ 64 → n < 256 ^ k → extended_length 0 (big_endian k n) ≡ n
extended_length-big_endian k n h fits =
    ap (λ t. extended_length t (big_endian k n)) (sym (div-eq_of_lt fits)) ∙ read_back k n h
