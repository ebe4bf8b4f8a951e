-- ===== src/Common/Text.antt =====
-- Go's `string` as the native text, with the functions of package `strings` that the source calls.
-- The prefixes and suffixes that the source passes are ASCII, so that characters serve for bytes.
use Prim.Native.Char.{Char, code}
use Prim.Native.String.{[], ◌∷◌, ◌++◌}
use Prim.Native.String.append
use mathlib.Core.Path.{◌≡◌, refl, ap, sym}
use mathlib.Core.Logic.{inl, inr}
use mathlib.Core.Bool.{Bool, true, ◌||◌, ◌&&◌}
use native.Mathlib.Omega.{arith}
use text.Mathlib.Text.{starts_with}
use fabric8_jenkins_idler.Common.Tests.{if◌then◌else◌, Bool-cases, nat_beq, ltb}
pub use Prim.Native.String.{String}
pub use text.Mathlib.Text.{◌==◌}
pub use text.Mathlib.TextEquality.{eq_iff}
pub use text.Mathlib.TextPositions.{eq_refl}

-- `s + t`
infixr 65 ◌<>◌
abbrev pub ◌<>◌ : String → String → String
s <> t = s ++ t

-- strings.HasPrefix
abbrev pub has_prefix : String → String → Bool
has_prefix s t = starts_with s t

-- strings.HasSuffix
unfoldable pub has_suffix : String → String → Bool
has_suffix [] t = [] == t
has_suffix (c ∷ s) t = (c ∷ s) == t || has_suffix s t

-- strings.TrimSuffix, for a suffix that is not empty
unfoldable pub trim_suffix : String → String → String
trim_suffix [] t = []
trim_suffix (c ∷ s) t = if (c ∷ s) == t then [] else c ∷ trim_suffix s t

-- strings.Contains
unfoldable pub contains : String → String → Bool
contains [] t = [] == t
contains (c ∷ s) t = has_prefix (c ∷ s) t || contains s t

-- unicode.IsSpace
abbrev is_space : Char → Bool
is_space c =
    nat_beq (code c) 32
    || nat_beq (code c) 9
    || nat_beq (code c) 10
    || nat_beq (code c) 11
    || nat_beq (code c) 12
    || nat_beq (code c) 13
    || nat_beq (code c) 133
    || nat_beq (code c) 160
    || nat_beq (code c) 5760
    || (ltb 8191 (code c) && ltb (code c) 8203)
    || nat_beq (code c) 8232
    || nat_beq (code c) 8233
    || nat_beq (code c) 8239
    || nat_beq (code c) 8287
    || nat_beq (code c) 12288

trim_left : String → String
trim_left [] = []
trim_left (c ∷ s) = let rest = trim_left s in if is_space c then rest else c ∷ s

trim_right : String → String
trim_right [] = []
trim_right (c ∷ s) =
    let rest = trim_right s in
    if is_space c then (if rest == [] then [] else c ∷ rest) else c ∷ rest

-- strings.TrimSpace
unfoldable pub trim_space : String → String
unfolding trim_left trim_right
trim_space s = trim_right (trim_left s)

has_suffix_self : (t : String) → has_suffix t t ≡ true
unfolding has_suffix
has_suffix_self [] = refl
has_suffix_self (c ∷ t) = ground (arith, eq_refl (c ∷ t))

pub has_suffix-append : (s t : String) → has_suffix (s <> t) t ≡ true
unfolding has_suffix
has_suffix-append [] t = rw (append.nil t) (has_suffix_self t)
has_suffix-append (c ∷ s) t = rw (append.cons c s t) (ground (arith, has_suffix-append s t))

-- What the suffix leaves, and the suffix, make up the text.
pub trim_suffix-append : (s t : String) → has_suffix s t ≡ true → trim_suffix s t <> t ≡ s
unfolding has_suffix trim_suffix
trim_suffix-append [] t h = rw (append.nil t) (sym ((eq_iff [] t).0 h))
trim_suffix-append (c ∷ s) t h = elim (Bool-cases ((c ∷ s) == t)) [
  | inl e ↦ rw (e, append.nil t) (sym ((eq_iff (c ∷ s) t).0 e))
  | inr e ↦
      rw (e, append.cons c (trim_suffix s t) t) (ap (◌∷◌ c) (trim_suffix-append s t (ground arith)))
]
