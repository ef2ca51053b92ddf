-- ===== src/GdbStub/Framing.antt =====
-- What the stub reads from a stream of packets.
use clear_core.Text.Numbers.{digit_in, uint32_from_chars, digit_value, whole_number, digits_from}
use clear_core.Text.{Text}
use mathlib.Core.List.{append-nil, append_assoc}
use clear_core.Prelude.{
  refl, [], ◌∷◌, true, false, none, some, All, List, ℕ, ◌<◌, arith, length, ◌++◌, ◌==◌, ◌≡◌, ◌+◌,
  ◌/◌, ◌≤◌, ◌%◌, Bool, ltb, ◌∙◌, ◌⊎◌, ap, inl, length-snoc, u8, ◌*◌, inr, Bool-cases, leb, tests,
  if_both, ltb→lt, Option,
}
use clear_core.GdbStub.Packets.{
  Waiting, received, for_dollar, for_payload, for_hi, recv_from, recv_packet, packet, checksum,
  hex_byte, unescape, store, accepted, checksum_matches, max_packet_size, hex_digit, checksum_from,
  parse_hex_byte,
}

-- Bytes between packets: neither the start of one nor an interrupt.
abbrev pub IsNoise : Text → Type 0
IsNoise s = All (λ (c : ℕ). ((c == b'$') ≡ false) × ((c == 0x03) ≡ false)) s

abbrev pub NoHash : Text → Type 0
NoHash s = All (λ (c : ℕ). (c == b'#') ≡ false) s

skip_noise :
    (noise : Text) (acks : Text) (input : List ℕ)
    → IsNoise noise
    → recv_from for_dollar acks (noise ++ input) ≡ recv_from for_dollar acks input
unfolding recv_from
skip_noise [] acks input h = refl
skip_noise (c ∷ noise) acks input h = rw (h.0.0, h.0.1) (skip_noise noise acks input h.1)

checksum_from-lt : (s : Text) (sum : ℕ) → sum < 256 → checksum_from sum s < 256
unfolding checksum_from
checksum_from-lt [] sum h = h
checksum_from-lt (c ∷ s) sum h = checksum_from-lt s (u8 (sum + c)) (omega arith)

checksum-lt : (s : Text) → checksum s < 256
unfolding checksum
checksum-lt s = checksum_from-lt s 0 (omega arith)

hex_digit-reads : (d : ℕ) → d < 16 → digit_in 16 (hex_digit d) ≡ some d
unfolding digit_in digit_value
hex_digit-reads d h = ground arith

two_digits :
    (x y d e : ℕ)
    → digit_in 16 x ≡ some d
    → digit_in 16 y ≡ some e
    → d < 16
    → e < 16
    → uint32_from_chars 16 (x ∷ y ∷ []) ≡ some (d * 16 + e)
unfolding uint32_from_chars whole_number digits_from
two_digits x y d e p q h k = rw (p, uint32_from_chars) (rw (q, uint32_from_chars) (ground arith))

-- Two hexadecimal digits are read back to the byte that was written.
pub uint32_from_chars-hex_byte : (b : ℕ) → b < 256 → uint32_from_chars 16 (hex_byte b) ≡ some b
unfolding hex_byte
uint32_from_chars-hex_byte b h =
    two_digits (hex_digit (b / 16)) (hex_digit (b % 16)) (b / 16) (b % 16)
      (hex_digit-reads (b / 16) (omega arith)) (hex_digit-reads (b % 16) (omega arith))
      (omega arith) (omega arith)
    ∙ ap some (omega arith)

matches_digits :
    (raw : Text) (hi lo : ℕ)
    → uint32_from_chars 16 (hi ∷ lo ∷ []) ≡ some (checksum raw)
    → checksum_matches raw hi lo ≡ true
unfolding checksum_matches parse_hex_byte
matches_digits raw hi lo h = ground (arith, h, checksum-lt raw)

checksum_matches-checksum :
    (raw : Text)
    → checksum_matches raw (hex_digit (checksum raw / 16)) (hex_digit (checksum raw % 16)) ≡ true
unfolding hex_byte
checksum_matches-checksum raw =
    matches_digits raw (hex_digit (checksum raw / 16)) (hex_digit (checksum raw % 16))
      (uint32_from_chars-hex_byte (checksum raw) (checksum-lt raw))

store_room :
    (out : Text) (too_long : Bool) (c : ℕ)
    → (c == b'#') ≡ false
    → ltb (length out) max_packet_size ≡ true
    → store out too_long c ≡ for_payload (out ++ c ∷ []) too_long
store_room out too_long c h k = rw (h, k) refl

store_full :
    (out : Text) (too_long : Bool) (c : ℕ)
    → (c == b'#') ≡ false
    → ltb (length out) max_packet_size ≡ false
    → store out too_long c ≡ for_payload out true
store_full out too_long c h k = rw (h, k) refl

-- A payload that is short enough is stored whole, up to the `#`.
store_all :
    (raw out : Text) (acks : Text) (input : List ℕ)
    → NoHash raw
    → length out + length raw ≤ max_packet_size
    → recv_from (for_payload out false) acks (raw ++ b'#' ∷ input)
      ≡ recv_from (for_hi (out ++ raw) false) acks input
unfolding recv_from
store_all [] out acks input h fits = rw append-nil refl
store_all (c ∷ raw) out acks input h fits =
    ap (λ (w : Waiting). recv_from w acks (raw ++ b'#' ∷ input))
      (store_room out false c h.0 (ground arith))
    ∙ store_all raw (out ++ c ∷ []) acks input h.1 (omega (arith, length-snoc out c))
    ∙ ap (λ (o : Text). recv_from (for_hi o false) acks input) (append_assoc out (c ∷ []) raw)

-- One that is too long is cut, and remembered to be.
store_some :
    (raw out : Text) (too_long : Bool) (acks : Text) (input : List ℕ)
    → NoHash raw
    → (too_long ≡ true) ⊎ (max_packet_size < length out + length raw)
    → length out ≤ max_packet_size
    → (out' : Text) × (recv_from (for_payload out too_long) acks (raw ++ b'#' ∷ input)
        ≡ recv_from (for_hi out' true) acks input)
unfolding recv_from
store_some [] out too_long acks input h (inl e) fits = (out, rw e refl)
store_some [] out too_long acks input h (inr e) fits = absurd (omega arith)
store_some (c ∷ raw) out too_long acks input h over fits =
    elim (Bool-cases (ltb (length out) max_packet_size)) [
      | inl room ↦
          let (out', e) =
            store_some raw (out ++ c ∷ []) too_long acks input h.1 (still_over over)
              (omega (tests, length-snoc out c, ltb→lt (length out) max_packet_size room)) in
          (
            out',
            ap (λ (w : Waiting). recv_from w acks (raw ++ b'#' ∷ input))
                  (store_room out too_long c h.0 room)
                ∙ e,
          )
      | inr full ↦
          let (out', e) = store_some raw out true acks input h.1 (inl refl) fits in
          (
            out',
            ap (λ (w : Waiting). recv_from w acks (raw ++ b'#' ∷ input))
                  (store_full out too_long c h.0 full)
                ∙ e,
          )
    ]
  where
    still_over :
        (too_long ≡ true) ⊎ (max_packet_size < length out + length (c ∷ raw))
        → (too_long ≡ true) ⊎ (max_packet_size < length (out ++ c ∷ []) + length raw)
    still_over (inl e) = inl e
    still_over (inr e) = inr (omega (arith, length-snoc out c))

taken :
    (out : Text) (hi lo : ℕ) (acks : Text) (rest : List ℕ) {decoded : Text}
    → checksum_matches out hi lo ≡ true
    → unescape out ≡ some decoded
    → recv_from (for_hi out false) acks (hi ∷ lo ∷ rest)
      ≡ record { status = received; out = decoded; acks = acks ++ b'+' ∷ []; rest = rest }
unfolding recv_from accepted
taken out hi lo acks rest e d = rw (e, recv_from) (rw (d, recv_from) refl)

not_taken :
    (out : Text) (too_long : Bool) (hi lo : ℕ) (acks : Text) (rest : List ℕ)
    → accepted out too_long hi lo ≡ none
    → recv_from (for_hi out too_long) acks (hi ∷ lo ∷ rest)
      ≡ recv_from for_dollar (acks ++ b'-' ∷ []) rest
unfolding recv_from
not_taken out too_long hi lo acks rest e = rw (e, recv_from) refl

-- After any noise, a packet whose payload has no `#`, is no longer than the limit and decodes is
-- received as its decoded payload: the stub acknowledges it and leaves the bytes behind it unread.
pub recv_packet-packet :
    (noise raw : Text) (rest : List ℕ) {decoded : Text}
    → IsNoise noise
    → NoHash raw
    → length raw ≤ max_packet_size
    → unescape raw ≡ some decoded
    → recv_packet (noise ++ (packet raw ++ rest))
      ≡ record { status = received; out = decoded; acks = b'+' ∷ []; rest = rest }
unfolding recv_packet recv_from packet hex_byte
recv_packet-packet noise raw rest quiet clean fits decodes =
    let hi = hex_digit (checksum raw / 16) in
    let lo = hex_digit (checksum raw % 16) in
    skip_noise noise [] (packet raw ++ rest) quiet
    ∙ ap (recv_from (for_payload [] false) []) (append_assoc raw (b'#' ∷ hi ∷ lo ∷ []) rest)
    ∙ store_all raw [] [] (hi ∷ lo ∷ rest) clean (omega arith)
    ∙ taken raw hi lo [] rest (checksum_matches-checksum raw) decodes

-- Such a packet is refused where its payload is longer than the limit, where the two characters
-- behind it do not spell its checksum, and where it does not decode: the stub sends a refusal and
-- goes on to what follows.
pub recv_packet-refuses :
    (noise raw : Text) (hi lo : ℕ) (rest : List ℕ)
    → IsNoise noise
    → NoHash raw
    → (max_packet_size < length raw) ⊎ (checksum_matches raw hi lo ≡ false) ⊎ (unescape raw ≡ none)
    → recv_packet (noise ++ (b'$' ∷ (raw ++ b'#' ∷ hi ∷ lo ∷ rest)))
      ≡ recv_from for_dollar (b'-' ∷ []) rest
unfolding recv_packet recv_from accepted
recv_packet-refuses noise raw hi lo rest quiet clean bad =
    skip_noise noise [] (b'$' ∷ (raw ++ b'#' ∷ hi ∷ lo ∷ rest)) quiet
    ∙ refused_payload (Bool-cases (leb (length raw) max_packet_size)) bad
  where
    refused_payload :
        (leb (length raw) max_packet_size ≡ true) ⊎ (leb (length raw) max_packet_size ≡ false)
        → (max_packet_size < length raw)
          ⊎ (checksum_matches raw hi lo ≡ false)
          ⊎ (unescape raw ≡ none)
        → recv_from (for_payload [] false) [] (raw ++ b'#' ∷ hi ∷ lo ∷ rest)
          ≡ recv_from for_dollar (b'-' ∷ []) rest
    refused_payload (inr long) bad =
        let (out', e) =
          store_some raw [] false [] (hi ∷ lo ∷ rest) clean (inr (ground arith)) (omega arith) in
        e ∙ not_taken out' true hi lo [] rest refl
    refused_payload (inl short) (inl long) = absurd (ground arith)
    refused_payload (inl short) (inr (inl differs)) =
        store_all raw [] [] (hi ∷ lo ∷ rest) clean (ground arith)
        ∙ not_taken raw false hi lo [] rest (rw differs refl)
    refused_payload (inl short) (inr (inr undecoded)) =
        store_all raw [] [] (hi ∷ lo ∷ rest) clean (ground arith)
        ∙ not_taken raw false hi lo [] rest
            (if_both (λ (o : Option Text). o ≡ none) (checksum_matches raw hi lo) undecoded refl)
