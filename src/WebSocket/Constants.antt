-- ===== src/WebSocket/Constants.antt =====
-- The constants of src/websocket.h.
use chroagh.Base.{ℕ, ◌*◌}

abbrev pub buffersize : ℕ
buffersize = 4096

abbrev pub framemaxheadersize : ℕ
framemaxheadersize = 16

abbrev pub maxframesize : ℕ
maxframesize = 16 * 1048576

abbrev pub opcode_cont : ℕ
opcode_cont = 0x0

abbrev pub opcode_text : ℕ
opcode_text = 0x1

abbrev pub opcode_binary : ℕ
opcode_binary = 0x2

abbrev pub opcode_close : ℕ
opcode_close = 0x8

abbrev pub opcode_ping : ℕ
opcode_ping = 0x9

abbrev pub opcode_pong : ℕ
opcode_pong = 0xa

abbrev pub header0_fin : ℕ
header0_fin = 0x80

abbrev pub header0_rsv : ℕ
header0_rsv = 0x70

abbrev pub header0_opcode_mask : ℕ
header0_opcode_mask = 0x0f

abbrev pub header1_mask : ℕ
header1_mask = 0x80

abbrev pub header1_len_mask : ℕ
header1_len_mask = 0x7f
