-- ===== src/Http2/Names.antt =====
-- The header field names of internal/http2/http2.go: what `validWireHeaderFieldName` lets through.
-- `is_token_rune` is the function of golang.org/x/net/http/httpguts.
use req.Base.{
  ℕ, zero, suc, ◌+◌, ◌*◌, ◌-◌, Bool, true, false, not, ◌&&◌, leb, ltb, ◌==◌, if◌then◌else◌, List,
  [], ◌∷◌,
}
use req.Base.Bytes.{Bytes}

-- The lowest and the highest byte that may follow a first byte.
abbrev second_range : ℕ → ℕ × ℕ
second_range b =
    if b == 0xe0
    then (0xa0, 0xbf)
    else if b == 0xed
    then (0x80, 0x9f)
    else if b == 0xf0
    then (0x90, 0xbf)
    else if b == 0xf4
    then (0x80, 0x8f)
    else (0x80, 0xbf)

abbrev within : ℕ → ℕ → ℕ → Bool
within lo hi b = leb lo b && leb b hi

abbrev bad_rune : ℕ × ℕ
bad_rune = (0xfffd, 0)

abbrev two_bytes : ℕ → Bytes → ℕ × ℕ
two_bytes b (b1 ∷ _) = if within 0x80 0xbf b1 then ((b - 0xc0) * 64 + (b1 - 0x80), 1) else bad_rune
two_bytes b _ = bad_rune

abbrev three_bytes : ℕ → Bytes → ℕ × ℕ
three_bytes b (b1 ∷ b2 ∷ _) =
    if within (second_range b).0 (second_range b).1 b1 && within 0x80 0xbf b2
    then ((b - 0xe0) * 4096 + (b1 - 0x80) * 64 + (b2 - 0x80), 2)
    else bad_rune
three_bytes b _ = bad_rune

abbrev four_bytes : ℕ → Bytes → ℕ × ℕ
four_bytes b (b1 ∷ b2 ∷ b3 ∷ _) =
    if within (second_range b).0 (second_range b).1 b1 && within 0x80 0xbf b2 && within 0x80 0xbf b3
    then ((b - 0xf0) * 262144 + (b1 - 0x80) * 4096 + (b2 - 0x80) * 64 + (b3 - 0x80), 3)
    else bad_rune
four_bytes b _ = bad_rune

-- The rune at the start of a string and the number of bytes that it takes after the first.
abbrev decode_rune : ℕ → Bytes → ℕ × ℕ
decode_rune b rest =
    if ltb b 0x80
    then (b, 0)
    else if within 0xc2 0xdf b
    then two_bytes b rest
    else if within 0xe0 0xef b
    then three_bytes b rest
    else if within 0xf0 0xf4 b
    then four_bytes b rest
    else bad_rune

-- The runes that `range` over a string yields, behind the bytes to skip.
abbrev pub runes : ℕ → Bytes → List ℕ
runes skip [] = []
runes (suc skip) (b ∷ rest) = runes skip rest
runes zero (b ∷ rest) = (decode_rune b rest).0 ∷ runes (decode_rune b rest).1 rest

unfoldable pub all_wire_runes : (ℕ → Bool) → List ℕ → Bool
all_wire_runes is_token_rune [] = true
all_wire_runes is_token_rune (r ∷ rs) =
    if not (is_token_rune r)
    then false
    else if leb 0x41 r && leb r 0x5a
    then false
    else all_wire_runes is_token_rune rs

-- `validWireHeaderFieldName`
unfoldable pub valid_wire_header_field_name : (ℕ → Bool) → Bytes → Bool
unfolding all_wire_runes
valid_wire_header_field_name is_token_rune [] = false
valid_wire_header_field_name is_token_rune (b ∷ v) = all_wire_runes is_token_rune (runes 0 (b ∷ v))
