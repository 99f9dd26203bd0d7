-- ===== src/FbServer/Packets/Decoding.antt =====
-- What a packet of src/fbserver-proto.h makes the framebuffer server do.
use chroagh.Base.{
  ℕ, ◌+◌, ◌*◌, ◌/◌, ◌%◌, ◌==◌, ◌≡◌, refl, if◌then◌else◌, Bool, true, false, some, List, [], ◌∷◌,
  ◌++◌, length, M, ◌>>=◌, arith,
}
use chroagh.FbServer.Keys.{mouse, keyboard, KeyButton}
use chroagh.FbServer.Keys.History.{Operation, press, let_go, let_all_go, perform}
use chroagh.FbServer.Packets.{
  fake_key, fake_button, fake_motion, Session, on_keys, check_size, fake, input_case,
}

-- The packets that carry input, with the unused bits of the flags.
pub data Packet : Type 0 where
  key : Bool → ℕ → ℕ → Packet
  click : Bool → ℕ → ℕ → Packet
  move : ℕ → ℕ → Packet
  quit : Packet

abbrev flags : Bool → ℕ → ℕ
flags down unused = 2 * unused + (if down then 1 else 0)

abbrev pub encode : Packet → List ℕ
encode (key down unused code) = b'K' ∷ flags down unused ∷ code ∷ []
encode (click down unused code) = b'C' ∷ flags down unused ∷ code ∷ []
encode (move x y) = b'M' ∷ x % 256 ∷ x / 256 ∷ y % 256 ∷ y / 256 ∷ []
encode quit = b'Q' ∷ []

abbrev pub change : Bool → KeyButton → Operation
change down k = if down then press k else let_go k

-- The packet's meaning: the event that is faked, then the change of what is down.
abbrev pub meaning : Packet → M Session (Unit {0})
meaning (key down unused code) = fake (fake_key code down) >>= λ _.
    on_keys (perform (change down (record { type = keyboard; code = code })))
meaning (click down unused code) = fake (fake_button code down) >>= λ _.
    on_keys (perform (change down (record { type = mouse; code = code })))
meaning (move x y) = fake (fake_motion x y)
meaning quit = on_keys (perform let_all_go)

flag_down : (down : Bool) (unused : ℕ) → (flags down unused % 2 == 1) ≡ down
flag_down true unused = let e : flags true unused % 2 ≡ 1 = omega arith in rw e refl
flag_down false unused = let e : flags false unused % 2 ≡ 0 = omega arith in rw e refl

-- The packet at the start of the buffer, whatever follows it, is handled as it means, once.
pub input_case_lem :
    (p : Packet) (stale : List ℕ) (s : Session)
    → (m : M Session (Unit {0})) × (input_case (encode p ++ stale) (length (encode p)) ≡ some m)
      × (m s ≡ meaning p s)
unfolding input_case check_size
input_case_lem (key true unused code) stale s = (_, refl, rw (flag_down true unused) refl)
input_case_lem (key false unused code) stale s = (_, refl, rw (flag_down false unused) refl)
input_case_lem (click true unused code) stale s = (_, refl, rw (flag_down true unused) refl)
input_case_lem (click false unused code) stale s = (_, refl, rw (flag_down false unused) refl)
input_case_lem (move x y) stale s =
    let ex : x % 256 + 256 * (x / 256) ≡ x = omega arith in
    let ey : y % 256 + 256 * (y / 256) ≡ y = omega arith in (_, refl, rw (ex, ey) refl)
input_case_lem quit stale s = (_, refl, refl)
