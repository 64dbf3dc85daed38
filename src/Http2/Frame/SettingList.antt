-- ===== src/Http2/Frame/SettingList.antt =====
-- The payload of a SETTINGS frame as the list of settings that it encodes: what `Value` and
-- `ForeachSetting` of internal/http2/frame.go find in it.
use req.Base.{
  ℕ, zero, suc, ◌+◌, ◌*◌, ◌/◌, ◌^◌, ◌<◌, ◌≡◌, refl, sym, ◌∙◌, ap, if◌then◌else◌, ◌==◌, Option, none,
  some, List, [], ◌∷◌, ◌++◌, length, length-append, drop, All, arith,
}
use req.Base.Bytes.{Bytes, put_uint16, put_uint32}
use req.Http2.Errors.{Error}
use req.Http2.Frame.{Setting}
use req.Http2.Frame.Settings.{
  setting, num_settings, value_loop, value, foreach_loop, foreach_setting,
}

-- An identifier of 16 bits and a value of 32.
abbrev pub IsSetting : Setting → Type 0
IsSetting s = (s.id < 2 ^ 16) × (s.val < 2 ^ 32)

abbrev pub setting_bytes : Setting → Bytes
setting_bytes s = put_uint16 s.id ++ put_uint32 s.val

abbrev pub settings_payload : List Setting → Bytes
settings_payload [] = []
settings_payload (s ∷ ss) = setting_bytes s ++ settings_payload ss

-- The first value given for an identifier.
abbrev pub first_value : ℕ → List Setting → Option ℕ
first_value id [] = none
first_value id (s ∷ ss) = if s.id == id then some s.val else first_value id ss

-- `fn` on each setting in turn, up to the first error.
abbrev pub each_until_error {ℓ} :
    {S : Type ℓ} → (Setting → S → Option Error × S) → List Setting → S → Option Error × S
each_until_error fn [] s = (none, s)
each_until_error fn (x ∷ xs) s =
    let (e, s') = fn x s in elim e [ none ↦ each_until_error fn xs s' | some err ↦ (some err, s') ]

pub length-settings_payload : (ss : List Setting) → length (settings_payload ss) ≡ 6 * length ss
length-settings_payload [] = refl
length-settings_payload (s ∷ ss) = omega (arith, length-settings_payload ss)

-- The bytes from the index of a setting on.
drop-settings_payload :
    (pre : List Setting) (q : Bytes) (k : ℕ)
    → drop (length pre * 6 + k) (settings_payload pre ++ q) ≡ drop k q
drop-settings_payload [] q k = ap (λ n. drop n q) (omega arith)
drop-settings_payload (s ∷ pre) q k =
    let six : length (s ∷ pre) * 6 + k ≡ suc (suc (suc (suc (suc (suc (length pre * 6 + k)))))) =
      omega arith in
    rw six (drop-settings_payload pre q k)

drop-settings_payload_start :
    (pre : List Setting) (q : Bytes) → drop (length pre * 6) (settings_payload pre ++ q) ≡ q
drop-settings_payload_start pre q =
    ap (λ n. drop n (settings_payload pre ++ q)) (omega arith) ∙ drop-settings_payload pre q 0

-- The setting at an index is the one that was written there.
setting_at :
    (pre : List Setting) (s : Setting) (q : Bytes)
    → IsSetting s
    → setting (settings_payload pre ++ (setting_bytes s ++ q)) (length pre) ≡ s
unfolding setting
setting_at pre s q v = ground (
  arith,
  drop-settings_payload_start pre (setting_bytes s ++ q),
  drop-settings_payload pre (setting_bytes s ++ q) 2,
)

-- One more setting before the rest.
shift_payload :
    (pre : List Setting) (s : Setting) (q : Bytes)
    → settings_payload pre ++ (setting_bytes s ++ q) ≡ settings_payload (pre ++ s ∷ []) ++ q
shift_payload [] s q = refl
shift_payload (t ∷ pre) s q = ap (λ r. setting_bytes t ++ r) (shift_payload pre s q)

length-snoc : (pre : List Setting) (s : Setting) → length (pre ++ s ∷ []) ≡ length pre + 1
length-snoc pre s = length-append pre (s ∷ [])

-- The settings at `n` indices from `i`.
abbrev pub settings_from : Bytes → ℕ → ℕ → List Setting
settings_from p i zero = []
settings_from p i (suc n) = setting p i ∷ settings_from p (i + 1) n

settings_from-settings_payload :
    (pre ss : List Setting)
    → All IsSetting ss
    → settings_from (settings_payload pre ++ settings_payload ss) (length pre) (length ss) ≡ ss
settings_from-settings_payload pre [] v = refl
settings_from-settings_payload pre (s ∷ ss) (vs, vss) =
    let q = settings_payload ss in
    rw (setting_at pre s q vs) (
      ap (λ r. s ∷ r)
        (ap (λ b. settings_from b (length pre + 1) (length ss)) (shift_payload pre s q)
          ∙ ap (λ n. settings_from (settings_payload (pre ++ s ∷ []) ++ q) n (length ss))
              (sym (length-snoc pre s))
          ∙ settings_from-settings_payload (pre ++ s ∷ []) ss vss))

-- The list of all settings of a payload.
abbrev pub settings_of : Bytes → List Setting
settings_of p = settings_from p 0 (num_settings p)

-- The settings that were written are the settings that are found, in order.
pub settings_of-settings_payload :
    (ss : List Setting) → All IsSetting ss → settings_of (settings_payload ss) ≡ ss
unfolding num_settings
settings_of-settings_payload ss v =
    ap (settings_from (settings_payload ss) 0) count ∙ settings_from-settings_payload [] ss v
  where
    count : length (settings_payload ss) / 6 ≡ length ss
    count = omega (arith, length-settings_payload ss)

value_loop-first_value :
    (p : Bytes) (id i n : ℕ) → value_loop p id i n ≡ first_value id (settings_from p i n)
unfolding value_loop
value_loop-first_value p id i zero = refl
value_loop-first_value p id i (suc n) = ground (arith, value_loop-first_value p id (i + 1) n)

pub value-settings_of : (p : Bytes) (id : ℕ) → value p id ≡ first_value id (settings_of p)
unfolding value
value-settings_of p id = value_loop-first_value p id 0 (num_settings p)

foreach_loop-each_until_error {ℓ} :
    {S : Type ℓ} (p : Bytes) (fn : Setting → S → Option Error × S) (i n : ℕ) (x : S)
    → foreach_loop p fn i n x ≡ each_until_error fn (settings_from p i n) x
unfolding foreach_loop
foreach_loop-each_until_error {S = S} p fn i zero x = refl
foreach_loop-each_until_error {S = S} p fn i (suc n) x =
    go (fn (setting p i) x) (foreach_loop-each_until_error p fn (i + 1) n)
  where
    go :
        (q : Option Error × S)
        → ((y : S)
            → foreach_loop p fn (i + 1) n y ≡ each_until_error fn (settings_from p (i + 1) n) y)
        → elim q.0 [ none ↦ foreach_loop p fn (i + 1) n q.1 | some e ↦ (some e, q.1) ] ≡ elim q.0 [
          | none ↦ each_until_error fn (settings_from p (i + 1) n) q.1
          | some e ↦ (some e, q.1)
        ]
    go (none, y) later = later y
    go (some e, y) later = refl

pub foreach_setting-settings_of {ℓ} :
    {S : Type ℓ} (p : Bytes) (fn : Setting → S → Option Error × S) (x : S)
    → foreach_setting p fn x ≡ each_until_error fn (settings_of p) x
unfolding foreach_setting
foreach_setting-settings_of p fn x = foreach_loop-each_until_error p fn 0 (num_settings p) x

-- For settings of 16-bit identifiers and 32-bit values, Value on the payload that encodes them, six
-- bytes each, finds the first one that was written with the identifier, and nothing if there is
-- none.
pub value-settings_payload :
    (ss : List Setting) (id : ℕ)
    → All IsSetting ss
    → value (settings_payload ss) id ≡ first_value id ss
value-settings_payload ss id v =
    value-settings_of (settings_payload ss) id
    ∙ ap (first_value id) (settings_of-settings_payload ss v)

-- For settings of 16-bit identifiers and 32-bit values, ForeachSetting on the payload that encodes
-- them, six bytes each, calls the function on each setting that was written, in their order, hands
-- the changed state on, and stops at the first error.
pub foreach_setting-settings_payload {ℓ} :
    {S : Type ℓ} (ss : List Setting) (fn : Setting → S → Option Error × S) (x : S)
    → All IsSetting ss
    → foreach_setting (settings_payload ss) fn x ≡ each_until_error fn ss x
foreach_setting-settings_payload ss fn x v =
    foreach_setting-settings_of (settings_payload ss) fn x
    ∙ ap (λ r. each_until_error fn r x) (settings_of-settings_payload ss v)
