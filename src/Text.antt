-- ===== src/Text.antt =====
-- Go's strings as their bytes, with the functions of `strings` and `fmt` that the program calls.
-- White space is Unicode's: the ASCII spaces, U+0085, U+00A0, U+1680, U+2000 to U+200A, U+2028,
-- U+2029, U+202F, U+205F and U+3000, each by its UTF-8 bytes.
pub mod Decimal
pub mod Key
pub mod Ascii
pub mod Fields
use Prim.Native.Char.{code}
use Prim.Native.String.{String}
use mathlib.Core.List.{reverse}
use maxbridge.Prelude.{
  ℕ, zero, suc, ◌+◌, ◌-◌, ◌/◌, ◌%◌, ◌≡◌, refl, ◌↔◌, Bool, true, false, ◌&&◌, ◌||◌, List, [], ◌∷◌,
  ◌++◌, arith, ltb, leb, ◌==◌, if◌then◌else◌, ==_iff, Bool-cases, inl, inr, length, not,
}

abbrev pub Text : Type 0
Text = List ℕ

-- The UTF-8 bytes of a code point.
abbrev pub encode : ℕ → Text
encode c =
    if ltb c 0x80
    then c ∷ []
    else if ltb c 0x800
    then (0xC0 + c / 64) ∷ (0x80 + c % 64) ∷ []
    else if ltb c 0x10000
    then (0xE0 + c / 4096) ∷ (0x80 + c / 64 % 64) ∷ (0x80 + c % 64) ∷ []
    else (0xF0 + c / 262144) ∷ (0x80 + c / 4096 % 64) ∷ (0x80 + c / 64 % 64) ∷ (0x80 + c % 64) ∷ []

-- A literal of the source.
abbrev pub utf8 : String → Text
utf8 String.[] = []
utf8 (String.◌∷◌ c s) = encode (code c) ++ utf8 s

-- `a == b` on strings.
infix 50 ◌==ᵗ◌
unfoldable pub ◌==ᵗ◌ : Text → Text → Bool
[] ==ᵗ [] = true
[] ==ᵗ (b ∷ t) = false
(a ∷ s) ==ᵗ [] = false
(a ∷ s) ==ᵗ (b ∷ t) = a == b && s ==ᵗ t

pub ==ᵗ_iff : (s t : Text) → ((s ==ᵗ t) ≡ true) ↔ (s ≡ t)
unfolding ◌==ᵗ◌
==ᵗ_iff [] [] = ground arith
==ᵗ_iff [] (b ∷ t) = ground arith
==ᵗ_iff (a ∷ s) [] = ground arith
==ᵗ_iff (a ∷ s) (b ∷ t) = ground (arith, ==ᵗ_iff s t)

pub ==ᵗ_refl : (s : Text) → (s ==ᵗ s) ≡ true
==ᵗ_refl s = (==ᵗ_iff s s).1 refl

-- `s < t`, by bytes.
unfoldable pub less : Text → Text → Bool
less s [] = false
less [] (b ∷ t) = true
less (a ∷ s) (b ∷ t) = ltb a b || a == b && less s t

-- `s == ""`
abbrev pub is_empty : Text → Bool
is_empty [] = true
is_empty (c ∷ s) = false

is_ascii_space : ℕ → Bool
is_ascii_space c = c == 32 || leb 9 c && leb c 13

is_space2 : ℕ → ℕ → Bool
is_space2 a b = a == 0xC2 && (b == 0x85 || b == 0xA0)

is_space3 : ℕ → ℕ → ℕ → Bool
is_space3 a b c =
    a == 0xE1 && b == 0x9A && c == 0x80
    || a == 0xE2 && b == 0x80 && (leb 0x80 c && leb c 0x8A || c == 0xA8 || c == 0xA9 || c == 0xAF)
    || a == 0xE2 && b == 0x81 && c == 0x9F
    || a == 0xE3 && b == 0x80 && c == 0x80

-- How many bytes the white space at the front takes: 0 where there is none.
unfoldable pub space_width : Text → ℕ
unfolding is_ascii_space is_space2 is_space3
space_width [] = 0
space_width (a ∷ []) = if is_ascii_space a then 1 else 0
space_width (a ∷ b ∷ []) = if is_ascii_space a then 1 else if is_space2 a b then 2 else 0
space_width (a ∷ b ∷ c ∷ s) =
    if is_ascii_space a then 1 else if is_space2 a b then 2 else if is_space3 a b c then 3 else 0

-- The same at the end of a text that is given in reverse.
last_width : Text → ℕ
unfolding is_ascii_space is_space2 is_space3
last_width [] = 0
last_width (c ∷ []) = if is_ascii_space c then 1 else 0
last_width (c ∷ b ∷ []) = if is_ascii_space c then 1 else if is_space2 b c then 2 else 0
last_width (c ∷ b ∷ a ∷ s) =
    if is_ascii_space c then 1 else if is_space2 b c then 2 else if is_space3 a b c then 3 else 0

-- Drops `n` bytes, and then white space for as long as `width` finds some.
pub skip : (Text → ℕ) → ℕ → Text → Text
skip width n [] = []
skip width (suc n) (c ∷ s) = skip width n s
skip width zero (c ∷ s) =
    let w = width (c ∷ s) in let rest = skip width (w - 1) s in if w == 0 then c ∷ s else rest

-- strings.TrimSpace
unfoldable pub trim_space : Text → Text
unfolding skip space_width last_width
trim_space s = reverse (skip last_width 0 (reverse (skip space_width 0 s)))

-- strings.TrimPrefix
unfoldable pub trim_prefix : Text → Text → Text
trim_prefix s p = go p s
  where
    go : Text → Text → Text
    go [] rest = rest
    go (a ∷ p') [] = s
    go (a ∷ p') (b ∷ rest) = let more = go p' rest in if a == b then more else s

starts_with : Text → Text → Bool
starts_with s [] = true
starts_with [] (b ∷ p) = false
starts_with (a ∷ s) (b ∷ p) = a == b && starts_with s p

-- strings.Contains
unfoldable pub contains : Text → Text → Bool
unfolding starts_with
contains [] p = is_empty p
contains (a ∷ s) p = starts_with (a ∷ s) p || contains s p

-- strings.Join
unfoldable pub join : List Text → Text → Text
join [] sep = []
join (s ∷ []) sep = s
join (s ∷ t ∷ ts) sep = s ++ sep ++ join (t ∷ ts) sep

trims : trim_space (utf8 " \t a b\u{2003}\n") ≡ utf8 "a b"
unfolding trim_space
trims = refl

finds : contains (utf8 "x attachment.not.ready y") (utf8 "attachment.not.ready") ≡ true
unfolding contains
finds = refl
