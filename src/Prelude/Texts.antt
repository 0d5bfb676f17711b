-- ===== src/Prelude/Texts.antt =====
-- The text functions of Rust's standard library that the services call: `str::trim`, `is_empty`,
-- `split` at a character and `char::is_whitespace`.
use Prim.Native.Nat.{ℕ}
use Prim.Native.String.{String, [], ◌∷◌}
use Prim.Native.Char.{Char, code}
use mathlib.Core.Bool.{Bool, true, false, ◌&&◌, ◌||◌}
use mathlib.Core.List.{List, [], ◌∷◌}
use backbone_lifecycle.Prelude.Tests.{if◌then◌else◌, leb, ◌==◌}

abbrev pub is_empty : String → Bool
is_empty [] = true
is_empty (c ∷ s) = false

abbrev is_within : ℕ → ℕ → ℕ → Bool
is_within a b n = leb a n && leb n b

-- The code points with Unicode's property White_Space.
abbrev pub is_whitespace : Char → Bool
is_whitespace c =
    let n = code c in
    (n == 32)
    || is_within 9 13 n
    || (n == 133)
    || (n == 160)
    || (n == 5760)
    || is_within 8192 8202 n
    || (n == 8232)
    || (n == 8233)
    || (n == 8239)
    || (n == 8287)
    || (n == 12288)

abbrev pub trim_start : String → String
trim_start [] = []
trim_start (c ∷ s) = let rest = trim_start s in if is_whitespace c then rest else c ∷ s

abbrev pub trim_end : String → String
trim_end [] = []
trim_end (c ∷ s) =
    let rest = trim_end s in if is_empty rest && is_whitespace c then [] else c ∷ rest

abbrev pub trim : String → String
trim s = trim_end (trim_start s)

-- A character put before the first piece.
abbrev pub push_first : Char → List String → List String
push_first c List.[] = (c ∷ []) ∷ List.[]
push_first c (s ∷ pieces) = (c ∷ s) ∷ pieces

-- `split` at the character with the code point `at`: the pieces between the separators, one at least.
abbrev pub split : ℕ → String → List String
split at [] = [] ∷ List.[]
split at (c ∷ s) =
    let pieces = split at s in if code c == at then [] ∷ pieces else push_first c pieces
