-- ===== src/Base/Bytes.antt =====
-- Bytes as numbers below 256, and the big-endian words of encoding/binary.
use Prim.Native.Nat.{ℕ, ◌+◌, ◌*◌, ◌/◌, ◌%◌, ◌^◌, ◌<◌}
use Prim.Native.Char.{code}
use Prim.Native.String.{String}
use mathlib.Core.Path.{◌≡◌, refl, subst}
use mathlib.Core.List.{List, [], ◌∷◌, ◌++◌}
use native.Mathlib.Omega.{arith}
use req.Base.Lists.{All}
use mathlib.Core.Logic.{inl, inr, ◌≢◌}
use req.Base.Tests.{◌==◌, ==_iff, ==_refl, Bool-cases}
use mathlib.Core.Bool.{Bool, true, false, ◌&&◌}

abbrev pub Bytes : Type 0
Bytes = List ℕ

abbrev pub IsByte : ℕ → Type 0
IsByte b = b < 256

abbrev pub IsBytes : Bytes → Type 0
IsBytes = All IsByte

-- The code points of a text, its bytes where it is ASCII.
abbrev pub codes : String → Bytes
codes String.[] = []
codes (String.◌∷◌ c s) = code c ∷ codes s

-- `byte(v>>8), byte(v)` and `byte(v>>24), …, byte(v)`.
abbrev pub put_uint16 : ℕ → Bytes
put_uint16 v = (v / 2 ^ 8 % 256) ∷ (v % 256) ∷ []

abbrev pub put_uint32 : ℕ → Bytes
put_uint32 v = (v / 2 ^ 24 % 256) ∷ (v / 2 ^ 16 % 256) ∷ (v / 2 ^ 8 % 256) ∷ (v % 256) ∷ []

-- `binary.BigEndian.Uint16` and `Uint32`, which panic on a shorter slice; every call is guarded.
abbrev pub uint16 : Bytes → ℕ
uint16 (a ∷ b ∷ _) = a * 2 ^ 8 + b
uint16 _ = 0

abbrev pub uint32 : Bytes → ℕ
uint32 (a ∷ b ∷ c ∷ d ∷ _) = a * 2 ^ 24 + b * 2 ^ 16 + c * 2 ^ 8 + d
uint32 _ = 0

pub uint32-put_uint32 : (v : ℕ) (rest : Bytes) → v < 2 ^ 32 → uint32 (put_uint32 v ++ rest) ≡ v
uint32-put_uint32 v rest h = omega arith

pub uint16-put_uint16 : (v : ℕ) (rest : Bytes) → v < 2 ^ 16 → uint16 (put_uint16 v ++ rest) ≡ v
uint16-put_uint16 v rest h = omega arith

abbrev pub equal_names : Bytes → Bytes → Bool
equal_names [] [] = true
equal_names (a ∷ xs) (b ∷ ys) = a == b && equal_names xs ys
equal_names _ _ = false

pub equal_names→eq : (a b : Bytes) → equal_names a b ≡ true → a ≡ b
equal_names→eq [] [] h = refl
equal_names→eq (x ∷ xs) (y ∷ ys) h = elim (Bool-cases (x == y)) [
  | inl e ↦
      let same : xs ≡ ys = equal_names→eq xs ys (rw e at h) in
      let head : x ≡ y = (==_iff x y).0 e in cc (head, same)
  | inr e ↦ absurd (cc (rw e at h))
]
equal_names→eq [] (y ∷ ys) h = cc h
equal_names→eq (x ∷ xs) [] h = cc h

pub equal_names_refl : (n : Bytes) → equal_names n n ≡ true
equal_names_refl [] = refl
equal_names_refl (b ∷ n) = rw (==_refl b) (equal_names_refl n)

pub names_differ : (n m : Bytes) → equal_names n m ≡ false → n ≢ m
names_differ n m h e =
    let same : equal_names n m ≡ true =
      subst (λ x. equal_names n x ≡ true) e (equal_names_refl n) in
    absurd (ground arith)
