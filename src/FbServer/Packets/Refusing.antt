-- ===== src/FbServer/Packets/Refusing.antt =====
-- Packets of a wrong size.
use chroagh.Base.{ℕ}

pub data SizedPacket : Type 0 where
  key_packet : SizedPacket
  click_packet : SizedPacket
  move_packet : SizedPacket

abbrev pub first_byte : SizedPacket → ℕ
first_byte key_packet = b'K'
first_byte click_packet = b'C'
first_byte move_packet = b'M'

abbrev pub size : SizedPacket → ℕ
size key_packet = 3
size click_packet = 3
size move_packet = 5
