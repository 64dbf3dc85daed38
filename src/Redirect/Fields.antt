-- ===== src/Redirect/Fields.antt =====
-- The part of http.Header that redirect.go uses: Values, Add and Del, by the canonical name.
use req.Base.{
  ℕ, ◌+◌, ◌-◌, Bool, true, false, ◌&&◌, ◌||◌, ◌==◌, leb, if◌then◌else◌, List, [], ◌∷◌, ◌++◌,
}
use req.Base.Bytes.{Bytes, equal_names}

abbrev pub Header : Type 0
Header = Bytes → List Bytes

-- A byte of a token.
unfoldable pub is_field_byte : ℕ → Bool
is_field_byte b =
    leb 48 b && leb b 57
    || leb 65 b && leb b 90
    || leb 94 b && leb b 122
    || leb 35 b && leb b 39
    || b == 33
    || b == 42
    || b == 43
    || b == 45
    || b == 46
    || b == 124
    || b == 126

unfoldable pub all_field_bytes : Bytes → Bool
unfolding is_field_byte
all_field_bytes [] = true
all_field_bytes (b ∷ s) = is_field_byte b && all_field_bytes s

-- An upper-case letter at the start and behind each dash, lower case elsewhere.
unfoldable pub with_case : Bool → Bytes → Bytes
with_case upper [] = []
with_case true (b ∷ s) = (if leb 97 b && leb b 122 then b - 32 else b) ∷ with_case (b == 45) s
with_case false (b ∷ s) = (if leb 65 b && leb b 90 then b + 32 else b) ∷ with_case (b == 45) s

-- `textproto.CanonicalMIMEHeaderKey`
unfoldable pub canonical : Bytes → Bytes
unfolding all_field_bytes with_case
canonical name = if all_field_bytes name then with_case true name else name

unfoldable pub values : Bytes → Header → List Bytes
unfolding canonical
values name h = h (canonical name)

unfoldable pub add : Bytes → Bytes → Header → Header
unfolding canonical
add name v h key = if equal_names (canonical name) key then h key ++ v ∷ [] else h key

unfoldable pub del : Bytes → Header → Header
unfolding canonical
del name h key = if equal_names (canonical name) key then [] else h key
