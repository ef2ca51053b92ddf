-- ===== src/GdbStub/Packets.antt =====
-- src/mips/gdb_stub.cpp: hexadecimal fields and the framing of packets. The socket is not modelled:
-- what `read_byte` will yield until the connection closes is a list of bytes, and what `send_raw`
-- sends is appended to another.
use clear_core.Text.{Text, take, drop}
use clear_core.Text.Numbers.{uint32_from_chars}
use clear_core.Prelude.{
  ℕ, ◌+◌, ◌-◌, ◌/◌, ◌%◌, Bool, true, false, not, ◌&&◌, Option, none, some, List, [], ◌∷◌, ◌++◌,
  ◌==◌, ltb, if◌then◌else◌, length, u8, bit_and, bit_xor, shr,
}

-- `kMaxPacketSize`.
abbrev pub max_packet_size : ℕ
max_packet_size = 0x4000

unfoldable pub checksum_from : ℕ → Text → ℕ
checksum_from sum [] = sum
checksum_from sum (c ∷ s) = checksum_from (u8 (sum + c)) s

unfoldable pub checksum : Text → ℕ
unfolding checksum_from
checksum text = checksum_from 0 text

abbrev pub hex_digit : ℕ → ℕ
hex_digit d = if ltb d 10 then b'0' + d else b'a' + d - 10

-- `%02x` of a byte.
unfoldable pub hex_byte : ℕ → Text
hex_byte b = hex_digit (b / 16) ∷ hex_digit (b % 16) ∷ []

-- The packet of `send_packet`.
unfoldable pub packet : Text → Text
packet text = b'$' ∷ (text ++ b'#' ∷ hex_byte (checksum text))

-- Four bytes, the lowest first.
unfoldable pub to_hex_le : ℕ → Text
to_hex_le v =
    hex_byte (bit_and v 0xff)
    ++ (hex_byte (bit_and (shr v 8) 0xff)
        ++ (hex_byte (bit_and (shr v 16) 0xff) ++ hex_byte (bit_and (shr v 24) 0xff)))

unfoldable pub parse_hex : Text → Option ℕ
parse_hex s = uint32_from_chars 16 s

unfoldable pub parse_hex_byte : Text → ℕ → Option ℕ
parse_hex_byte s off =
    if ltb (length s) (off + 2)
    then none
    else elim (uint32_from_chars 16 (take (drop s off) 2)) [ none ↦ none | some v ↦ some (u8 v) ]

unfoldable pub checksum_matches : Text → ℕ → ℕ → Bool
checksum_matches text hi lo = elim (parse_hex_byte (hi ∷ lo ∷ []) 0) [
  | none ↦ false
  | some expected ↦ expected == checksum text
]

-- One more byte in front of what is decoded.
abbrev pub prepend : ℕ → Option Text → Option Text
prepend c none = none
prepend c (some s) = some (c ∷ s)

unfoldable pub unescape : Text → Option Text
unescape [] = some []
unescape (c ∷ []) = if c == b'}' then none else some (c ∷ [])
unescape (c ∷ d ∷ s) = elim (c == b'}') [
  | true ↦ prepend (bit_xor d 0x20) (unescape s)
  | false ↦ prepend c (unescape (d ∷ s))
]

pub data RecvStatus : Type 0 where
  received interrupted closed : RecvStatus

-- What `recv_packet` leaves: its result, the payload, the acknowledgements it has sent, and the
-- bytes that it has not read.
pub record Reception : Type 0 where
  pub status : RecvStatus
  pub out : Text
  pub acks : Text
  pub rest : List ℕ

-- Where `recv_packet` waits for a byte.
pub data Waiting : Type 0 where
  for_dollar : Waiting
  for_payload : Text → Bool → Waiting
  for_hi : Text → Bool → Waiting
  for_lo : Text → Bool → ℕ → Waiting

abbrev pub store : Text → Bool → ℕ → Waiting
store out too_long c =
    if c == b'#'
    then for_hi out too_long
    else if ltb (length out) max_packet_size
    then for_payload (out ++ c ∷ []) too_long
    else for_payload out true

-- The payload, where the packet is short enough, its checksum matches and it decodes.
unfoldable pub accepted : Text → Bool → ℕ → ℕ → Option Text
accepted out too_long hi lo =
    if not too_long && checksum_matches out hi lo then unescape out else none

unfoldable pub recv_from : Waiting → Text → List ℕ → Reception
recv_from w acks [] = record { status = closed; out = []; acks = acks; rest = [] }
recv_from for_dollar acks (c ∷ input) =
    let next = recv_from (if c == b'$' then for_payload [] false else for_dollar) acks input in
    if c == 0x03 then record { status = interrupted; out = []; acks = acks; rest = input } else next
recv_from (for_payload out too_long) acks (c ∷ input) = recv_from (store out too_long c) acks input
recv_from (for_hi out too_long) acks (c ∷ input) = recv_from (for_lo out too_long c) acks input
recv_from (for_lo out too_long hi) acks (c ∷ input) =
    let again = recv_from for_dollar (acks ++ b'-' ∷ []) input in
    elim (accepted out too_long hi c) [
      | none ↦ again
      | some decoded ↦ record {
        status = received;
        out = decoded;
        acks = acks ++ b'+' ∷ [];
        rest = input;
      }
    ]

unfoldable pub recv_packet : List ℕ → Reception
unfolding recv_from
recv_packet input = recv_from for_dollar [] input
