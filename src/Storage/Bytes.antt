-- ===== src/Storage/Bytes.antt =====
-- A file's bytes, and bytes.TrimSpace over them: the white space of Unicode in UTF-8.
use durable_agent_handoff.Prelude.{
  ℕ, zero, suc, ◌≡◌, refl, sym, ap, ◌∙◌, subst, ◌⊎◌, inl, inr, Bool, ◌&&◌, ◌||◌, List, [], ◌∷◌,
  ◌++◌, arith, leb, eqb, if◌then◌else◌,
}
use mathlib.Core.List.{reverse, reverse-append, reverse-reverse}

abbrev pub Bytes : Type 0
Bytes = List ℕ

abbrev pub newline : ℕ
newline = 10

abbrev pub ascii_space : ℕ → Bool
ascii_space c = (leb 9 c && leb c 13) || eqb c 32

-- U+0085 and U+00A0
abbrev pub two_byte_space : ℕ → ℕ → Bool
two_byte_space c d = eqb c 0xc2 && (eqb d 0x85 || eqb d 0xa0)

-- U+1680, U+2000 to U+200A, U+2028, U+2029, U+202F, U+205F and U+3000
abbrev pub three_byte_space : ℕ → ℕ → ℕ → Bool
three_byte_space c d e =
    (eqb c 0xe1 && eqb d 0x9a && eqb e 0x80)
    || (eqb c 0xe2
        && ((eqb d 0x80 && ((leb 0x80 e && leb e 0x8a) || eqb e 0xa8 || eqb e 0xa9 || eqb e 0xaf))
            || (eqb d 0x81 && eqb e 0x9f)))
    || (eqb c 0xe3 && eqb d 0x80 && eqb e 0x80)

-- How many bytes of white space stand in front, and at the end of a text read backwards.
unfoldable pub front_width : Bytes → ℕ
front_width [] = 0
front_width (c ∷ []) = if ascii_space c then 1 else 0
front_width (c ∷ d ∷ []) = if ascii_space c then 1 else if two_byte_space c d then 2 else 0
front_width (c ∷ d ∷ e ∷ s) =
    if ascii_space c
    then 1
    else if two_byte_space c d
    then 2
    else if three_byte_space c d e
    then 3
    else 0

unfoldable pub back_width : Bytes → ℕ
back_width [] = 0
back_width (c ∷ []) = if ascii_space c then 1 else 0
back_width (d ∷ c ∷ []) = if ascii_space d then 1 else if two_byte_space c d then 2 else 0
back_width (e ∷ d ∷ c ∷ s) =
    if ascii_space e
    then 1
    else if two_byte_space d e
    then 2
    else if three_byte_space c d e
    then 3
    else 0

-- Drops so many bytes, and then white space as long as there is some.
unfoldable pub drop_space : (Bytes → ℕ) → ℕ → Bytes → Bytes
drop_space width k [] = []
drop_space width (suc k) (c ∷ s) = drop_space width k s
drop_space width zero (c ∷ s) = elim (width (c ∷ s)) [ zero ↦ c ∷ s | suc k ↦ drop_space width k s ]

unfoldable pub trim_back : Bytes → Bytes
unfolding drop_space back_width
trim_back s = reverse (drop_space back_width 0 (reverse s))

-- bytes.TrimSpace
unfoldable pub trim : Bytes → Bytes
unfolding trim_back drop_space front_width
trim s = drop_space front_width 0 (trim_back s)

zero-cases : (n : ℕ) → (n ≡ 0) ⊎ ((k : ℕ) × (n ≡ suc k))
zero-cases zero = inl refl
zero-cases (suc k) = inr (k, refl)

module _ (width : Bytes → ℕ) (c : ℕ) (s : Bytes) where
  drop_space-kept : width (c ∷ s) ≡ 0 → drop_space width 0 (c ∷ s) ≡ c ∷ s
  unfolding drop_space
  drop_space-kept z = rw (drop_space, z) refl

  drop_space-dropped :
      (k : ℕ) → width (c ∷ s) ≡ suc k → drop_space width 0 (c ∷ s) ≡ drop_space width k s
  unfolding drop_space
  drop_space-dropped k z = rw (drop_space, z) refl

drop_space-stays :
    (width : Bytes → ℕ) (k : ℕ) (s : Bytes)
    → drop_space width 0 (drop_space width k s) ≡ drop_space width k s
unfolding drop_space
drop_space-stays width k [] = refl
drop_space-stays width (suc k) (c ∷ s) = drop_space-stays width k s
drop_space-stays width zero (c ∷ s) = elim (zero-cases (width (c ∷ s))) [
  | inl z ↦ rw (drop_space-kept width c s z) (drop_space-kept width c s z)
  | inr (k, z) ↦ rw (drop_space-dropped width c s k z) (drop_space-stays width k s)
]

-- What is left is a suffix.
drop_space-suffix :
    (width : Bytes → ℕ) (k : ℕ) (s : Bytes) → (p : Bytes) × (s ≡ p ++ drop_space width k s)
unfolding drop_space
drop_space-suffix width k [] = ([], refl)
drop_space-suffix width (suc k) (c ∷ s) =
    let (p, e) = drop_space-suffix width k s in (c ∷ p, ap (λ t. c ∷ t) e)
drop_space-suffix width zero (c ∷ s) = elim (zero-cases (width (c ∷ s))) [
  | inl z ↦ ([], sym (drop_space-kept width c s z))
  | inr (k, z) ↦
      let (p, e) = drop_space-suffix width k s in
      (c ∷ p, rw (drop_space-dropped width c s k z) (ap (λ t. c ∷ t) e))
]

-- A text read backwards that has no white space at its end has none either without its beginning.
back_width-prefix : (u v : Bytes) → back_width (u ++ v) ≡ 0 → back_width u ≡ 0
unfolding back_width
back_width-prefix [] v h = refl
back_width-prefix (c ∷ []) [] h = h
back_width-prefix (c ∷ []) (d ∷ []) h = ground arith
back_width-prefix (c ∷ []) (d ∷ e ∷ v) h = ground arith
back_width-prefix (d ∷ c ∷ []) [] h = h
back_width-prefix (d ∷ c ∷ []) (e ∷ v) h = ground arith
back_width-prefix (e ∷ d ∷ c ∷ s) v h = h

back_width-drop_space : (k : ℕ) (s : Bytes) → back_width (drop_space back_width k s) ≡ 0
unfolding drop_space back_width
back_width-drop_space k [] = refl
back_width-drop_space (suc k) (c ∷ s) = back_width-drop_space k s
back_width-drop_space zero (c ∷ s) = elim (zero-cases (back_width (c ∷ s))) [
  | inl z ↦ rw (drop_space-kept back_width c s z) z
  | inr (k, z) ↦ rw (drop_space-dropped back_width c s k z) (back_width-drop_space k s)
]

drop_space-fixed : (u : Bytes) → back_width u ≡ 0 → drop_space back_width 0 u ≡ u
unfolding drop_space
drop_space-fixed [] z = refl
drop_space-fixed (c ∷ u) z = drop_space-kept back_width c u z

trim_back-suffix : (p s t : Bytes) → trim_back s ≡ p ++ t → trim_back t ≡ t
unfolding trim_back
trim_back-suffix p s t e =
    ap reverse (drop_space-fixed (reverse t) (back_width-prefix (reverse t) (reverse p) whole))
    ∙ reverse-reverse t
  where
    kept : Bytes
    kept = drop_space back_width 0 (reverse s)

    whole : back_width (reverse t ++ reverse p) ≡ 0
    whole =
        subst (λ u. back_width u ≡ 0)
          (sym (reverse-reverse kept) ∙ ap reverse e ∙ reverse-append p t)
          (back_width-drop_space 0 (reverse s))

-- Trimming a trimmed text changes nothing.
pub trim-trim : (s : Bytes) → trim (trim s) ≡ trim s
unfolding trim
trim-trim s =
    let (p, e) = drop_space-suffix front_width 0 (trim_back s) in
    rw (trim_back-suffix p s (trim s) e) (drop_space-stays front_width 0 (trim_back s))

newline_width : (s : Bytes) → back_width (newline ∷ s) ≡ 1
unfolding back_width
newline_width [] = refl
newline_width (c ∷ []) = refl
newline_width (c ∷ d ∷ s) = refl

trim_back-newline : (s : Bytes) → trim_back (s ++ newline ∷ []) ≡ trim_back s
unfolding trim_back
trim_back-newline s =
    ap (λ t. reverse (drop_space back_width 0 t)) (reverse-append s (newline ∷ []))
    ∙ ap reverse (drop_space-dropped back_width newline (reverse s) 0 (newline_width (reverse s)))

-- Nor does a newline at the end matter.
pub trim-newline : (s : Bytes) → trim (s ++ newline ∷ []) ≡ trim s
unfolding trim
trim-newline s = rw (trim_back-newline s) refl
