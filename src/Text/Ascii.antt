-- ===== src/Text/Ascii.antt =====
-- What the program asks of `strings.ToLower` and `filepath.Base`.
pub mod Names
use maxbridge.Prelude.{ℕ, ◌+◌, ◌≡◌, refl, ◌&&◌, [], ◌∷◌, leb, ◌==◌, if◌then◌else◌}
use mathlib.Core.List.{reverse}
use maxbridge.Text.{Text, utf8}

lower_byte : ℕ → ℕ
lower_byte c = if leb 65 c && leb c 90 then c + 32 else c

-- strings.ToLower as far as ASCII texts can occur in its result: the letters A to Z, and the two
-- other characters whose lower case is an ASCII letter, U+0130 (i) and U+212A (k). The bytes of
-- other characters, which stay non-ASCII, are left alone.
unfoldable pub lower_ascii : Text → Text
unfolding lower_byte
lower_ascii [] = []
lower_ascii (a ∷ []) = lower_byte a ∷ []
lower_ascii (a ∷ b ∷ []) =
    if a == 0xC4 && b == 0xB0 then 105 ∷ [] else lower_byte a ∷ lower_byte b ∷ []
lower_ascii (a ∷ b ∷ c ∷ s) =
    let from_b = lower_ascii (b ∷ c ∷ s) in
    let from_c = lower_ascii (c ∷ s) in
    let rest = lower_ascii s in
    if a == 0xC4 && b == 0xB0
    then 105 ∷ from_c
    else if a == 0xE2 && b == 0x84 && c == 0xAA
    then 107 ∷ rest
    else lower_byte a ∷ from_b

-- The bytes of a text that is given in reverse, without the slashes it starts with.
drop_slashes : Text → Text
drop_slashes [] = []
drop_slashes (c ∷ s) = let rest = drop_slashes s in if c == 47 then rest else c ∷ s

until_slash : Text → Text
until_slash [] = []
until_slash (c ∷ s) = let rest = until_slash s in if c == 47 then [] else c ∷ rest

last_element : Text → Text
last_element [] = utf8 "/"
last_element (c ∷ s) = reverse (c ∷ s)

-- filepath.Base, where the separator is a slash.
unfoldable pub base : Text → Text
unfolding drop_slashes until_slash last_element
base [] = utf8 "."
base (c ∷ s) = last_element (until_slash (drop_slashes (reverse (c ∷ s))))

lowers : lower_ascii (utf8 "FİLE.NOT") ≡ utf8 "file.not"
unfolding lower_ascii
lowers = refl

bases : (base (utf8 "/a/b.txt//") ≡ utf8 "b.txt") × (base (utf8 "//") ≡ utf8 "/")
unfolding base
bases = (refl, refl)
