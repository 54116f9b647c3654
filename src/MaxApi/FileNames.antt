-- ===== src/MaxApi/FileNames.antt =====
-- The file names that internal/max/client.go sends in its uploads.
use maxbridge.Text.{==ᵗ_iff, Text, utf8, ◌==ᵗ◌, trim_space}
use maxbridge.Prelude.{
  ◌≡◌, refl, sym, ap, ◌∙◌, ◌≢◌, inl, inr, Bool, true, false, ◌||◌, [], arith, Bool-cases, All,
}
use maxbridge.Text.Ascii.{base}
use maxbridge.Text.Ascii.Names.{NotSlash, IsName, trim_space-All, base-IsName}
use maxbridge.MaxApi.{safe_file_name}

abbrev is_unsafe : Text → Bool
is_unsafe b = b ==ᵗ utf8 "." || b ==ᵗ utf8 "/" || b ==ᵗ []

-- Not the current directory, not empty, and one element of a path.
abbrev pub IsSafe : Text → Type 0
IsSafe s = (s ≢ []) × (s ≢ utf8 ".") × All NotSlash s

default-IsSafe : IsSafe (utf8 "attachment.bin")
default-IsSafe = (
  λ e. cc e,
  λ e. cc e,
  (
    refl,
    (
      refl,
      (
        refl,
        (refl, (refl, (refl, (refl, (refl, (refl, (refl, (refl, (refl, (refl, (refl, tt))))))))))),
      ),
    ),
  ),
)

unequal : (s t : Text) → (s ==ᵗ t) ≡ false → s ≢ t
unequal s t h e = cc (sym h ∙ (==ᵗ_iff s t).1 e)

root_unsafe : is_unsafe (trim_space (utf8 "/")) ≡ true
unfolding trim_space ◌==ᵗ◌
root_unsafe = refl

trimmed-IsSafe : (b : Text) → IsName b → is_unsafe (trim_space b) ≡ false → IsSafe (trim_space b)
trimmed-IsSafe b (inl root) fine =
    cc (sym root_unsafe ∙ ap (λ x. is_unsafe (trim_space x)) (sym root) ∙ fine)
trimmed-IsSafe b (inr clean) fine =
    let s = trim_space b in
    (
      unequal s [] (ground (arith, fine)),
      unequal s (utf8 ".") (ground (arith, fine)),
      trim_space-All NotSlash b clean,
    )

-- safeFileName never gives the empty name, the current directory, or a name with a slash.
pub safe_file_name-IsSafe : (name : Text) → IsSafe (safe_file_name name)
unfolding safe_file_name
safe_file_name-IsSafe name = elim (Bool-cases (is_unsafe (trim_space (base name)))) [
  | inl unsafe ↦ rw unsafe default-IsSafe
  | inr fine ↦ rw fine (trimmed-IsSafe (base name) (base-IsName name) fine)
]
