-- ===== src/Text/Fields/Words.antt =====
-- Words without white space, such as ASCII and Cyrillic ones in UTF-8, joined by blanks.
use maxbridge.Prelude.{
  ℕ, ◌≤◌, ◌≡◌, refl, sym, ap, ◌∙◌, ◌≢◌, List, [], ◌∷◌, ◌++◌, arith, All, All-append,
}
use mathlib.Core.List.{
  append_assoc, reverse-append, append-nil, reverse-reverse, reverse_aux, reverse,
}
use maxbridge.Text.Fields.{fields, flush, split_fields}
use maxbridge.Text.{
  Text, utf8, join, is_ascii_space, is_space2, is_space3, space_width, last_width, skip, trim_space,
}
use maxbridge.Text.Fields.Plain.{
  skip-none, split_fields-next, split_fields-space, blank-width, flush-reverse, All-reverse_aux,
}

-- The first byte of no white space in UTF-8 that is longer than a byte.
abbrev pub IsNarrow : ℕ → Type 0
IsNarrow c = (c ≢ 0xC2) × (c ≢ 0xE1) × (c ≢ 0xE2) × (c ≢ 0xE3)

-- Of no white space at all.
abbrev pub IsSolid : ℕ → Type 0
IsSolid c = (33 ≤ c) × IsNarrow c

abbrev pub IsWord : Text → Type 0
IsWord [] = ⊥
IsWord (c ∷ s) = IsSolid c × All IsSolid s

space_width-IsSolid : (c : ℕ) (s : Text) → IsSolid c → space_width (c ∷ s) ≡ 0
unfolding space_width is_ascii_space is_space2 is_space3
space_width-IsSolid c [] h = ground arith
space_width-IsSolid c (b ∷ []) h = ground arith
space_width-IsSolid c (b ∷ d ∷ s) h = ground arith

last_width-IsSolid : (c : ℕ) (s : Text) → IsSolid c → All IsNarrow s → last_width (c ∷ s) ≡ 0
unfolding last_width is_ascii_space is_space2 is_space3
last_width-IsSolid c [] h k = ground arith
last_width-IsSolid c (b ∷ []) h k = ground arith
last_width-IsSolid c (b ∷ d ∷ s) h k = ground arith

trim_space-solid :
    (c d : ℕ) (s t : Text)
    → IsSolid c
    → reverse (c ∷ s) ≡ d ∷ t
    → IsSolid d
    → All IsNarrow t
    → trim_space (c ∷ s) ≡ c ∷ s
unfolding trim_space
trim_space-solid c d s t hc e hd ht =
    let front = skip-none space_width c s (space_width-IsSolid c s hc) in
    let back = skip-none last_width d t (last_width-IsSolid d t hd ht) in
    ap (λ x. reverse (skip last_width 0 (reverse x))) front
    ∙ ap (λ x. reverse (skip last_width 0 x)) e
    ∙ ap reverse back
    ∙ ap reverse (sym e)
    ∙ reverse-reverse (c ∷ s)

split_fields-solid :
    (w cur s : Text)
    → All IsSolid w
    → split_fields 0 cur (w ++ s) ≡ split_fields 0 (reverse_aux w cur) s
split_fields-solid [] cur s h = refl
split_fields-solid (c ∷ w) cur s h =
    split_fields-next c cur (w ++ s) (space_width-IsSolid c (w ++ s) h.0)
    ∙ split_fields-solid w (c ∷ cur) s h.1

IsSolid-IsNarrow : (s : Text) → All IsSolid s → All IsNarrow s
IsSolid-IsNarrow [] h = tt
IsSolid-IsNarrow (c ∷ s) h = (h.0.1, IsSolid-IsNarrow s h.1)

abbrev blank : Text
blank = utf8 " "

-- Joined words begin with a solid byte, end with one, and hold narrow bytes only.
record IsJoined (s : Text) : Type 0 where
  first : ℕ
  rest : Text
  starts : s ≡ first ∷ rest
  first_solid : IsSolid first
  last : ℕ
  front : Text
  ends : reverse s ≡ last ∷ front
  last_solid : IsSolid last
  narrow : All IsNarrow front

word-IsJoined : (c : ℕ) (w : Text) → IsWord (c ∷ w) → IsJoined (c ∷ w)
word-IsJoined c w h =
    go (reverse (c ∷ w)) (All-reverse_aux IsSolid (c ∷ w) [] h tt) (reverse-reverse (c ∷ w)) refl
  where
    go : (r : Text) → All IsSolid r → reverse r ≡ c ∷ w → reverse (c ∷ w) ≡ r → IsJoined (c ∷ w)
    go [] k e f = cc (e)
    go (x ∷ t) k e f = record {
      first = c;
      rest = w;
      starts = refl;
      first_solid = h.0;
      last = x;
      front = t;
      ends = f;
      last_solid = k.0;
      narrow = IsSolid-IsNarrow t k.1;
    }

append-IsJoined :
    (c : ℕ) (w s : Text) → IsWord (c ∷ w) → IsJoined s → IsJoined (((c ∷ w) ++ blank) ++ s)
append-IsJoined c w s h j = record {
  first = c;
  rest = (w ++ blank) ++ s;
  starts = refl;
  first_solid = h.0;
  last = j.last;
  front = j.front ++ reverse ((c ∷ w) ++ blank);
  ends = reverse-append ((c ∷ w) ++ blank) s ∙ ap (λ r. r ++ reverse ((c ∷ w) ++ blank)) j.ends;
  last_solid = j.last_solid;
  narrow = All-append IsNarrow j.front (reverse ((c ∷ w) ++ blank)) j.narrow (
      All-reverse_aux IsNarrow ((c ∷ w) ++ blank) []
        (All-append IsNarrow (c ∷ w) blank (IsSolid-IsNarrow (c ∷ w) h) (omega arith)) tt);
}

join-IsJoined :
    (w : Text) (ws : List Text) → IsWord w → All IsWord ws → IsJoined (join (w ∷ ws) blank)
unfolding join
join-IsJoined [] ws h k = absurd h
join-IsJoined (c ∷ w) [] h k = word-IsJoined c w h
join-IsJoined (c ∷ w) (v ∷ vs) h k = append-IsJoined c w _ h (join-IsJoined v vs k.0 k.1)

trim_space-joined : (s : Text) → IsJoined s → trim_space s ≡ s
trim_space-joined s j =
    let e = sym (ap reverse j.starts) ∙ j.ends in
    rw j.starts
      (trim_space-solid j.first j.last j.rest j.front j.first_solid e j.last_solid j.narrow)

split_fields-join :
    (w : Text) (ws : List Text)
    → IsWord w
    → All IsWord ws
    → split_fields 0 [] (join (w ∷ ws) blank) ≡ w ∷ ws
unfolding join
split_fields-join [] ws h k = absurd h
split_fields-join (c ∷ w) [] h k =
    ap (split_fields 0 []) (sym (append-nil (c ∷ w)))
    ∙ split_fields-solid (c ∷ w) [] [] h
    ∙ (unfold split_fields in flush-reverse c w)
split_fields-join (c ∷ w) (v ∷ vs) h k =
    let more = join (v ∷ vs) blank in
    ap (split_fields 0 []) (append_assoc (c ∷ w) blank more)
    ∙ split_fields-solid (c ∷ w) [] (32 ∷ more) h
    ∙ split_fields-space 32 (reverse (c ∷ w)) more (blank-width more)
    ∙ ap (λ x. flush (reverse (c ∷ w)) ++ x) (split_fields-join v vs k.0 k.1)
    ∙ ap (λ x. x ++ v ∷ vs) (flush-reverse c w)

-- strings.Fields gives back the words that were joined by blanks.
pub fields-join :
    (w : Text) (ws : List Text)
    → IsWord w
    → All IsWord ws
    → fields (trim_space (join (w ∷ ws) blank)) ≡ w ∷ ws
unfolding fields
fields-join w ws h k =
    ap (split_fields 0 []) (trim_space-joined _ (join-IsJoined w ws h k))
    ∙ split_fields-join w ws h k
