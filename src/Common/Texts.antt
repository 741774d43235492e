-- ===== src/Common/Texts.antt =====
-- Texts that are compared whole: `==` of Go strings, and `strings.Split` on one character.
use Prim.Native.Nat.{ℕ}
use Prim.Native.Char.{Char, code}
use Prim.Native.String
use Prim.Native.String.{String, [], ◌∷◌}
use Prim.Native.String.append.{cons}
use Prim.Native.String.compare.{cons-nil}
use mathlib.Core.Bool.{Bool, false, ◌&&◌, ◌||◌, true, not}
use mathlib.Core.Logic.{inl, inr}
use mathlib.Core.Path.{◌≡◌, refl}
use mathlib.Core.List.{List, [], ◌∷◌}
use lura_p.Common.Tests.{◌==◌, ltb, if◌then◌else◌, Bool-cases}
pub use text.Mathlib.Text.{◌==◌ as str_eq}

-- `x` is one of the texts of the list.
unfoldable pub contains : List String → String → Bool
contains [] x = false
contains (y ∷ ys) x = str_eq y x || contains ys x

-- No text of the list stands in it twice.
unfoldable pub nodup : List String → Bool
unfolding contains
nodup [] = true
nodup (y ∷ ys) = not (contains ys y) && nodup ys

abbrev push : String → Char → String
push s c = String.◌++◌ s (c ∷ [])

-- `strings.Split(s, sep)` for a separator of one character, given by its code point; the piece
-- that is being read is `cur`.
unfoldable pub split_from : ℕ → String → String → List String
split_from sep cur [] = cur ∷ []
split_from sep cur (ch ∷ s) =
    let closed : List String = cur ∷ split_from sep "" s in
    let longer : List String = split_from sep (push cur ch) s in
    if code ch == sep then closed else longer

unfoldable pub split : ℕ → String → List String
split sep s = split_from sep "" s

-- `a < b` on strings. The order of the code points is that of their UTF-8 bytes.
unfoldable pub string_lt : String → String → Bool
string_lt a [] = false
string_lt [] (d ∷ b) = true
string_lt (c ∷ a) (d ∷ b) =
    let rest = string_lt a b in if code c == code d then rest else ltb (code c) (code d)

-- The result of a split is never empty.
split_from-eq-cons :
    (sep : ℕ) (cur s : String) → (x : String) × (xs : List String) × (split_from sep cur s ≡ x ∷ xs)
unfolding split_from
split_from-eq-cons sep cur [] = (cur, [], refl)
split_from-eq-cons sep cur (ch ∷ s) = elim (Bool-cases (code ch == sep)) [
  | inl e ↦ (cur, split_from sep "" s, rw e)
  | inr e ↦ let (x, xs, q) = split_from-eq-cons sep (push cur ch) s in (x, xs, rw e q)
]

pub split-eq-cons :
    (sep : ℕ) (s : String) → (x : String) × (xs : List String) × (split sep s ≡ x ∷ xs)
unfolding split
split-eq-cons sep s = split_from-eq-cons sep "" s

-- A text that begins with a character is not empty.
pub str_eq-append_false : (c : Char) (s t : String) → str_eq (String.◌++◌ (c ∷ s) t) "" ≡ false
str_eq-append_false c s t = rw (cons c s t, cons-nil c (String.◌++◌ s t)) refl
