-- ===== src/Base/Bytes.antt =====
-- Byte strings. An array of fixed length is the number whose big-endian bytes it holds: the order of
-- two arrays of one length, in Rust and in SQLite, is the order of these numbers.
use Prim.Native.Char.{code}
use Prim.Native.String.{String}
use Prim.Native.Nat.{ℕ, zero, suc, ◌/◌, ◌%◌, ◌^◌}
use mathlib.Core.Bool.{Bool, true, false, ◌&&◌, ◌||◌}
use mathlib.Core.List.{List, [], ◌∷◌, ◌++◌}
use mathlib.Core.Path.{◌≡◌, refl}
use rhi.Base.Tests.{ltb, ◌==◌, ==_self, ==_iff, &&-left, &&-right}

abbrev pub codes : String → List ℕ
codes String.[] = []
codes (String.◌∷◌ c s) = code c ∷ codes s

-- `to_be_bytes`, and the bytes of an array, at a width in bytes.
unfoldable pub be_bytes : ℕ → ℕ → List ℕ
be_bytes zero v = []
be_bytes (suc w) v = v / 256 ^ w % 256 ∷ be_bytes w v

-- A domain separator: a text and a final zero byte.
abbrev pub domain : String → List ℕ
domain s = codes s ++ (0 ∷ [])

abbrev pub bit : Bool → ℕ
bit true = 1
bit false = 0

-- Equality and order of byte strings.
abbrev pub same_bytes : List ℕ → List ℕ → Bool
same_bytes [] [] = true
same_bytes [] (b ∷ bs) = false
same_bytes (a ∷ rest) [] = false
same_bytes (a ∷ rest) (b ∷ bs) = a == b && same_bytes rest bs

abbrev pub bytes_before : List ℕ → List ℕ → Bool
bytes_before xs [] = false
bytes_before [] (b ∷ bs) = true
bytes_before (a ∷ rest) (b ∷ bs) = ltb a b || (a == b && bytes_before rest bs)

-- Strings that are equal byte by byte are equal.
pub same_bytes_self : (xs : List ℕ) → same_bytes xs xs ≡ true
same_bytes_self [] = refl
same_bytes_self (x ∷ xs) = rw (==_self x, same_bytes_self xs) refl

pub same_bytes_eq : (xs ys : List ℕ) → same_bytes xs ys ≡ true → xs ≡ ys
same_bytes_eq [] [] h = refl
same_bytes_eq [] (y ∷ ys) h = cc
same_bytes_eq (x ∷ xs) [] h = cc
same_bytes_eq (x ∷ xs) (y ∷ ys) h =
    let heads : x ≡ y = (==_iff x y).0 (&&-left _ _ h) in
    let tails = same_bytes_eq xs ys (&&-right _ _ h) in cc
