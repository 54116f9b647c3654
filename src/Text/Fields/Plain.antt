-- ===== src/Text/Fields/Plain.antt =====
-- Words of printable ASCII without lower-case letters, such as the invite codes, under the functions
-- of `strings`.
use maxbridge.Prelude.{
  ◌&&◌, leb, Bool, true, map, ℕ, ◌≤◌, ◌≡◌, refl, sym, ap, ◌∙◌, [], ◌∷◌, ◌++◌, arith, All,
}
use mathlib.Core.List.{
  append_assoc, reverse-append, map, append-nil, reverse-reverse, reverse_aux, reverse,
}
use maxbridge.Text.Fields.{upper_byte, fields, flush, to_upper, is_ascii, split_fields}
use maxbridge.Text.{
  Text, is_ascii_space, is_space2, is_space3, space_width, last_width, skip, trim_space,
}

-- From `!` to `Z`.
abbrev pub IsUpper : ℕ → Type 0
IsUpper c = (33 ≤ c) × (c ≤ 90)

-- From `!` to `~`.
abbrev pub IsPrintable : ℕ → Type 0
IsPrintable c = (33 ≤ c) × (c ≤ 126)

-- The test of a word for printable bytes only.
abbrev pub is_word : Text → Bool
is_word [] = true
is_word (c ∷ s) = leb 33 c && leb c 126 && is_word s

pub is_word-IsPrintable : (s : Text) → is_word s ≡ true → All IsPrintable s
is_word-IsPrintable [] h = tt
is_word-IsPrintable (c ∷ s) h = (ground (arith, h), is_word-IsPrintable s (ground (arith, h)))

space_width-IsPrintable : (c : ℕ) (s : Text) → IsPrintable c → space_width (c ∷ s) ≡ 0
unfolding space_width is_ascii_space is_space2 is_space3
space_width-IsPrintable c [] h = ground arith
space_width-IsPrintable c (b ∷ []) h = ground arith
space_width-IsPrintable c (b ∷ d ∷ s) h = ground arith

last_width-IsPrintable : (c : ℕ) (s : Text) → IsPrintable c → last_width (c ∷ s) ≡ 0
unfolding last_width is_ascii_space is_space2 is_space3
last_width-IsPrintable c [] h = ground arith
last_width-IsPrintable c (b ∷ []) h = ground arith
last_width-IsPrintable c (b ∷ d ∷ s) h = ground arith

pub skip-none :
    (width : Text → ℕ) (c : ℕ) (s : Text) → width (c ∷ s) ≡ 0 → skip width 0 (c ∷ s) ≡ c ∷ s
unfolding skip
skip-none width c s h = ground (arith, h)

-- A text whose first and last bytes are printable is its own trimmed form.
pub trim_space-printable :
    (c d : ℕ) (s t : Text)
    → IsPrintable c
    → reverse (c ∷ s) ≡ d ∷ t
    → IsPrintable d
    → trim_space (c ∷ s) ≡ c ∷ s
unfolding trim_space
trim_space-printable c d s t hc e hd =
    let front = skip-none space_width c s (space_width-IsPrintable c s hc) in
    let back = skip-none last_width d t (last_width-IsPrintable d t hd) in
    ap (λ x. reverse (skip last_width 0 (reverse x))) front
    ∙ ap (λ x. reverse (skip last_width 0 x)) e
    ∙ ap reverse back
    ∙ ap reverse (sym e)
    ∙ reverse-reverse (c ∷ s)

pub split_fields-next :
    (c : ℕ) (cur s : Text)
    → space_width (c ∷ s) ≡ 0
    → split_fields 0 cur (c ∷ s) ≡ split_fields 0 (c ∷ cur) s
unfolding split_fields
split_fields-next c cur s e = ground (arith, e)

pub split_fields-space :
    (c : ℕ) (cur s : Text)
    → space_width (c ∷ s) ≡ 1
    → split_fields 0 cur (c ∷ s) ≡ flush cur ++ split_fields 0 [] s
unfolding split_fields
split_fields-space c cur s e = ground (arith, e)

-- A printable word at the front belongs to the current field.
split_fields-word :
    (w cur s : Text)
    → All IsPrintable w
    → split_fields 0 cur (w ++ s) ≡ split_fields 0 (reverse_aux w cur) s
split_fields-word [] cur s h = refl
split_fields-word (c ∷ w) cur s h =
    split_fields-next c cur (w ++ s) (space_width-IsPrintable c (w ++ s) h.0)
    ∙ split_fields-word w (c ∷ cur) s h.1

pub blank-width : (s : Text) → space_width (32 ∷ s) ≡ 1
unfolding space_width is_ascii_space
blank-width [] = refl
blank-width (a ∷ []) = refl
blank-width (a ∷ b ∷ s) = refl

flush-field : (r : Text) (c : ℕ) (w : Text) → reverse r ≡ c ∷ w → flush r ≡ (c ∷ w) ∷ []
flush-field [] c w e = cc (e)
flush-field (x ∷ r) c w e = ap (λ field. field ∷ []) e

pub flush-reverse : (c : ℕ) (w : Text) → flush (reverse (c ∷ w)) ≡ (c ∷ w) ∷ []
flush-reverse c w = flush-field (reverse (c ∷ w)) c w (reverse-reverse (c ∷ w))

pub All-reverse_aux :
    (P : ℕ → Type 0) (xs acc : Text) → All P xs → All P acc → All P (reverse_aux xs acc)
All-reverse_aux P [] acc h k = k
All-reverse_aux P (x ∷ xs) acc h k = All-reverse_aux P xs (x ∷ acc) h.1 (h.0, k)

last_byte :
    (d : ℕ) (w : Text)
    → All IsPrintable (d ∷ w)
    → (x : ℕ) × (t : Text) × (reverse (d ∷ w) ≡ x ∷ t) × IsPrintable x
last_byte d w h =
    go (reverse (d ∷ w)) (All-reverse_aux IsPrintable (d ∷ w) [] h tt) (reverse-reverse (d ∷ w))
      refl
  where
    go :
        (r : Text)
        → All IsPrintable r
        → reverse r ≡ d ∷ w
        → reverse (d ∷ w) ≡ r
        → (x : ℕ) × (t : Text) × (reverse (d ∷ w) ≡ x ∷ t) × IsPrintable x
    go [] k e f = cc (e)
    go (x ∷ t) k e f = (x, t, f, k.0)

-- Two printable words with a blank between them have no white space around them.
pub trim_space-two_words :
    (c d : ℕ) (v w : Text)
    → All IsPrintable (c ∷ v)
    → All IsPrintable (d ∷ w)
    → trim_space ((c ∷ v) ++ 32 ∷ (d ∷ w)) ≡ (c ∷ v) ++ 32 ∷ (d ∷ w)
trim_space-two_words c d v w hv hw =
    let (x, t, e, hx) = last_byte d w hw in
    let front = (c ∷ v) ++ 32 ∷ [] in
    let back : reverse ((c ∷ v) ++ 32 ∷ (d ∷ w)) ≡ x ∷ (t ++ reverse front) =
      ap reverse (sym (append_assoc (c ∷ v) (32 ∷ []) (d ∷ w)))
      ∙ reverse-append front (d ∷ w)
      ∙ ap (λ r. r ++ reverse front) e in
    trim_space-printable c x (v ++ 32 ∷ (d ∷ w)) (t ++ reverse front) hv.0 back hx

-- Two printable words with a blank between them are two fields.
pub fields-two_words :
    (c d : ℕ) (v w : Text)
    → All IsPrintable (c ∷ v)
    → All IsPrintable (d ∷ w)
    → fields ((c ∷ v) ++ 32 ∷ (d ∷ w)) ≡ (c ∷ v) ∷ (d ∷ w) ∷ []
unfolding fields
fields-two_words c d v w hv hw =
    let last_word = split_fields-word (d ∷ w) [] [] hw in
    split_fields-word (c ∷ v) [] (32 ∷ d ∷ w) hv
    ∙ split_fields-space 32 (reverse (c ∷ v)) (d ∷ w) (blank-width (d ∷ w))
    ∙ ap (λ x. flush (reverse (c ∷ v)) ++ x)
        (ap (split_fields 0 []) (sym (append-nil (d ∷ w))) ∙ last_word ∙ flush-reverse d w)
    ∙ ap (λ x. x ++ (d ∷ w) ∷ []) (flush-reverse c v)

map-upper_byte : (s : Text) → All IsUpper s → map upper_byte s ≡ s
map-upper_byte [] h = refl
map-upper_byte (c ∷ s) h =
    let kept : upper_byte c ≡ c = ground arith in rw (kept, map-upper_byte s h.1) refl

is_ascii-printable : (s : Text) → All IsPrintable s → is_ascii s ≡ true
unfolding is_ascii
is_ascii-printable [] h = refl
is_ascii-printable (c ∷ s) h = ground (arith, is_ascii-printable s h.1)

pub to_upper-printable :
    (unicode_upper : Text → Text) (s : Text)
    → All IsPrintable s
    → to_upper unicode_upper s ≡ map upper_byte s
unfolding to_upper
to_upper-printable unicode_upper s h = rw (is_ascii-printable s h) refl

pub IsUpper-IsPrintable : (s : Text) → All IsUpper s → All IsPrintable s
IsUpper-IsPrintable [] h = tt
IsUpper-IsPrintable (c ∷ s) h = ((h.0.0, omega arith), IsUpper-IsPrintable s h.1)

pub to_upper-upper :
    (unicode_upper : Text → Text) (s : Text) → All IsUpper s → to_upper unicode_upper s ≡ s
to_upper-upper unicode_upper s h =
    to_upper-printable unicode_upper s (IsUpper-IsPrintable s h) ∙ map-upper_byte s h
