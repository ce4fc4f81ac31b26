-- ===== src/Aac/Config/Hex.antt =====
-- The check of the configuration in client/scripts/aac-worker.js: `bytesToHex` and `validatePacket`.
use vrcstreamer.Common.{
  ℕ, ◌+◌, ◌*◌, ◌/◌, ◌%◌, ◌≤◌, ◌<◌, ◌≡◌, refl, sym, ap, ◌∙◌, ◌↔◌, ◌⊎◌, Bool, true, false, not, ◌&&◌,
  none, some, List, [], ◌∷◌, arith, ltb, ◌==◌, if◌then◌else◌, length, get_or, All,
}
use vrcstreamer.Aac.Config.{
  hex_digit, bytes_to_hex, starts_with, Fault, no_packet, adts, mismatch, is_sync, validate_packet,
}

abbrev pub IsByte : ℕ → Type 0
IsByte b = b < 256

hex_digit_eq : (a b : ℕ) → a < 16 → b < 16 → (hex_digit a == hex_digit b) ≡ (a == b)
unfolding hex_digit
hex_digit_eq a b h k = ground arith

-- Of whole bytes, the text begins with another's exactly if the bytes begin with the other's.
abbrev pub begins_with : List ℕ → List ℕ → Bool
begins_with bytes [] = true
begins_with [] (c ∷ cs) = false
begins_with (b ∷ bytes) (c ∷ cs) = (b == c) && begins_with bytes cs

hex_pair :
    (a b : ℕ)
    → a < 256
    → b < 256
    → (hex_digit (a / 16) == hex_digit (b / 16)) && (hex_digit (a % 16) == hex_digit (b % 16))
      ≡ (a == b)
hex_pair a b h k =
    rw
      (
        hex_digit_eq (a / 16) (b / 16) (omega arith) (omega arith),
        hex_digit_eq (a % 16) (b % 16) (omega arith) (omega arith),
      )
      (ground arith)

and_assoc : (x y z : Bool) → (x && y) && z ≡ x && (y && z)
and_assoc x y z = ground arith

starts_with-bytes_to_hex :
    (bytes cs : List ℕ)
    → All IsByte bytes
    → All IsByte cs
    → starts_with (bytes_to_hex bytes) (bytes_to_hex cs) ≡ begins_with bytes cs
unfolding bytes_to_hex
starts_with-bytes_to_hex bytes [] h k = refl
starts_with-bytes_to_hex [] (c ∷ cs) h k = refl
starts_with-bytes_to_hex (b ∷ bytes) (c ∷ cs) h k =
    let pair = hex_pair b c h.0 k.0 in
    let rest = starts_with-bytes_to_hex bytes cs h.1 k.1 in
    let (x, y) : Bool × Bool =
      (hex_digit (b / 16) == hex_digit (c / 16), hex_digit (b % 16) == hex_digit (c % 16)) in
    sym (and_assoc x y (starts_with (bytes_to_hex bytes) (bytes_to_hex cs)))
    ∙ ap (λ t. t && starts_with (bytes_to_hex bytes) (bytes_to_hex cs)) pair
    ∙ ap (λ t. (b == c) && t) rest

length-bytes_to_hex : (bytes : List ℕ) → length (bytes_to_hex bytes) ≡ 2 * length bytes
unfolding bytes_to_hex
length-bytes_to_hex [] = refl
length-bytes_to_hex (b ∷ bytes) = omega (arith, length-bytes_to_hex bytes)

-- The three tests of `validatePacket`.
refusal :
    (size digits count offset : ℕ) (header agrees : Bool) (fault : Fault)
    → digits ≡ 2 * count
    → ((if ltb size (offset + 4)
          then some no_packet
          else if header
          then some adts
          else if (ltb 0 digits) && not agrees
          then some fault
          else none)
        ≡ none)
      ↔ ((offset + 4 ≤ size) × (header ≡ false) × ((count ≡ 0) ⊎ (agrees ≡ true)))
refusal size digits count offset header agrees fault h = ground (arith, h)

-- For descriptions and an expected configuration of whole bytes: `validatePacket` refuses a packet
-- exactly where less than four bytes stand behind the offset, or an ADTS header, or where the
-- description's bytes do not begin with the expected ones; no description is no reason to refuse.
pub validate_packet-none_iff :
    (packet description expected : List ℕ) (offset : ℕ)
    → All IsByte description
    → All IsByte expected
    → (validate_packet (some packet) (bytes_to_hex description) (bytes_to_hex expected) offset
        ≡ none)
      ↔ ((offset + 4 ≤ length packet)
          × ((get_or packet offset 0 == 255) && is_sync (get_or packet (offset + 1) 0) ≡ false)
          × ((length description ≡ 0) ⊎ (begins_with description expected ≡ true)))
unfolding validate_packet
validate_packet-none_iff packet description expected offset h k =
    rw (starts_with-bytes_to_hex description expected h k) (
      refusal (length packet) (length (bytes_to_hex description)) (length description) offset
        ((get_or packet offset 0 == 255) && is_sync (get_or packet (offset + 1) 0))
        (begins_with description expected)
        (mismatch (bytes_to_hex description) (bytes_to_hex expected))
        (length-bytes_to_hex description))
