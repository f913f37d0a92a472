-- ===== src/Labels/Grammar.antt =====
-- What `LabelSafeValue` guarantees: the label grammar, and no change to a value already in it.
use Prim.Native.Char.{Char, code}
use urth.Prelude.{
  String, Bool, true, false, ◌||◌, ◌≡◌, ◌≢◌, ◌⊎◌, refl, sym, ◌∙◌, arith, ap, inl, inr, Bool-cases,
}
use urth.Labels.{
  is_alphanumeric, is_label_rune, safe_rune, map_runes, trim_left, trim_right, label_safe_value,
  cons_unless_trimmed,
}

-- Every rune is alphanumeric or one of `_`, `.` and `-`.
abbrev pub HasLabelRunes : String → Type 0
HasLabelRunes String.[] = Unit {0}
HasLabelRunes (String.◌∷◌ r s) = (is_label_rune (code r) ≡ true) × HasLabelRunes s

abbrev pub StartsAlphanumeric : String → Type 0
StartsAlphanumeric String.[] = Unit {0}
StartsAlphanumeric (String.◌∷◌ r s) = is_alphanumeric (code r) ≡ true

abbrev pub EndsAlphanumeric : String → Type 0
EndsAlphanumeric String.[] = Unit {0}
EndsAlphanumeric (String.◌∷◌ r String.[]) = is_alphanumeric (code r) ≡ true
EndsAlphanumeric (String.◌∷◌ r (String.◌∷◌ q s)) = EndsAlphanumeric (String.◌∷◌ q s)

-- The grammar of a label value, but for the empty text, which is no value of a label.
pub record IsLabelText (s : String) : Type 0 where
  pub runes : HasLabelRunes s
  pub first : StartsAlphanumeric s
  pub last : EndsAlphanumeric s

abbrev pub IsLabelValue : String → Type 0
IsLabelValue s = (s ≢ "") × IsLabelText s

-- Some rune is a letter or a digit.
abbrev pub has_alphanumeric : String → Bool
has_alphanumeric String.[] = false
has_alphanumeric (String.◌∷◌ r s) = is_alphanumeric (code r) || has_alphanumeric s

safe_rune-HasLabelRune : (r : Char) → is_label_rune (code (safe_rune r)) ≡ true
unfolding safe_rune
safe_rune-HasLabelRune r = elim (Bool-cases (is_label_rune (code r))) [
  | inl safe ↦ rw safe safe
  | inr unsafe ↦ rw unsafe (unfold is_label_rune in refl)
]

map_runes-HasLabelRunes : (s : String) → HasLabelRunes (map_runes safe_rune s)
unfolding map_runes
map_runes-HasLabelRunes String.[] = tt
map_runes-HasLabelRunes (String.◌∷◌ r s) = (safe_rune-HasLabelRune r, map_runes-HasLabelRunes s)

trim_left-HasLabelRunes : (s : String) → HasLabelRunes s → HasLabelRunes (trim_left s)
unfolding trim_left
trim_left-HasLabelRunes String.[] h = tt
trim_left-HasLabelRunes (String.◌∷◌ r s) h = ground (arith, trim_left-HasLabelRunes s h.1)

trim_left-StartsAlphanumeric : (s : String) → StartsAlphanumeric (trim_left s)
unfolding trim_left
trim_left-StartsAlphanumeric String.[] = tt
trim_left-StartsAlphanumeric (String.◌∷◌ r s) = ground (arith, trim_left-StartsAlphanumeric s)

cons-HasLabelRunes :
    (r : Char) (s : String)
    → is_label_rune (code r) ≡ true
    → HasLabelRunes s
    → HasLabelRunes (cons_unless_trimmed r s)
unfolding cons_unless_trimmed
cons-HasLabelRunes r String.[] h k = elim (Bool-cases (is_alphanumeric (code r))) [
  | inl kept ↦ rw kept (h, tt)
  | inr dropped ↦ rw dropped tt
]
cons-HasLabelRunes r (String.◌∷◌ q s) h k = (h, k)

trim_right-HasLabelRunes : (s : String) → HasLabelRunes s → HasLabelRunes (trim_right s)
unfolding trim_right
trim_right-HasLabelRunes String.[] h = tt
trim_right-HasLabelRunes (String.◌∷◌ r s) (h, k) =
    cons-HasLabelRunes r (trim_right s) h (trim_right-HasLabelRunes s k)

cons-EndsAlphanumeric :
    (r : Char) (s : String) → EndsAlphanumeric s → EndsAlphanumeric (cons_unless_trimmed r s)
unfolding cons_unless_trimmed
cons-EndsAlphanumeric r String.[] h = elim (Bool-cases (is_alphanumeric (code r))) [
  | inl kept ↦ rw kept kept
  | inr dropped ↦ rw dropped tt
]
cons-EndsAlphanumeric r (String.◌∷◌ q s) h = h

trim_right-EndsAlphanumeric : (s : String) → EndsAlphanumeric (trim_right s)
unfolding trim_right
trim_right-EndsAlphanumeric String.[] = tt
trim_right-EndsAlphanumeric (String.◌∷◌ r s) =
    cons-EndsAlphanumeric r (trim_right s) (trim_right-EndsAlphanumeric s)

cons-StartsAlphanumeric :
    (r : Char) (s : String)
    → is_alphanumeric (code r) ≡ true
    → StartsAlphanumeric (cons_unless_trimmed r s)
unfolding cons_unless_trimmed
cons-StartsAlphanumeric r String.[] h = ground arith
cons-StartsAlphanumeric r (String.◌∷◌ q s) h = h

trim_right-StartsAlphanumeric :
    (s : String) → StartsAlphanumeric s → StartsAlphanumeric (trim_right s)
unfolding trim_right
trim_right-StartsAlphanumeric String.[] h = tt
trim_right-StartsAlphanumeric (String.◌∷◌ r s) h = cons-StartsAlphanumeric r (trim_right s) h

plain_of : (r : Char) → is_label_rune (code r) ≡ false → is_alphanumeric (code r) ≡ false
unfolding is_label_rune
plain_of r h = ground arith

safe_rune-is_alphanumeric :
    (r : Char) → is_alphanumeric (code (safe_rune r)) ≡ is_alphanumeric (code r)
unfolding safe_rune is_alphanumeric
safe_rune-is_alphanumeric r = elim (Bool-cases (is_label_rune (code r))) [
  | inl safe ↦ rw safe refl
  | inr unsafe ↦ rw unsafe (sym (plain_of r unsafe))
]

map_runes-has_alphanumeric :
    (s : String) → has_alphanumeric (map_runes safe_rune s) ≡ has_alphanumeric s
unfolding map_runes
map_runes-has_alphanumeric String.[] = refl
map_runes-has_alphanumeric (String.◌∷◌ r s) =
    rw (safe_rune-is_alphanumeric r, map_runes-has_alphanumeric s)

abbrev is_empty : String → Bool
is_empty String.[] = true
is_empty (String.◌∷◌ r s) = false

cons_is_text : (r : Char) (s : String) → String.◌∷◌ r s ≢ ""
cons_is_text r s e = let b : false ≡ true = ap is_empty e in absurd (ground (arith, b))

cons-nonempty :
    (r : Char) (s : String) → is_alphanumeric (code r) ≡ true → cons_unless_trimmed r s ≢ ""
unfolding cons_unless_trimmed
cons-nonempty r String.[] h = rw h (cons_is_text r "")
cons-nonempty r (String.◌∷◌ q s) h = cons_is_text r (String.◌∷◌ q s)

trimmed-cases :
    (s : String)
    → (has_alphanumeric s ≡ false) × (trim_right (trim_left s) ≡ "")
      ⊎ (has_alphanumeric s ≡ true) × (trim_right (trim_left s) ≢ "")
unfolding trim_left trim_right
trimmed-cases String.[] = inl (refl, refl)
trimmed-cases (String.◌∷◌ r s) = elim (Bool-cases (is_alphanumeric (code r))) [
  | inl kept ↦ inr (rw kept refl, rw kept (cons-nonempty r (trim_right s) kept))
  | inr dropped ↦ rw dropped (trimmed-cases s)
]

safe-IsLabelText : (value : String) → IsLabelText (label_safe_value value)
unfolding label_safe_value
safe-IsLabelText value =
    let mapped = map_runes safe_rune value in
    let runes = map_runes-HasLabelRunes value in
    record {
      runes = trim_right-HasLabelRunes (trim_left mapped) (trim_left-HasLabelRunes mapped runes);
      first =
          trim_right-StartsAlphanumeric (trim_left mapped) (trim_left-StartsAlphanumeric mapped);
      last = trim_right-EndsAlphanumeric (trim_left mapped);
    }

-- The value made from a text is empty exactly if the text has no letter and no digit, and is
-- otherwise in the label grammar: not empty, only letters, digits, `_`, `.` and `-`, with a letter
-- or a digit at both ends.
pub label_safe_value-IsLabelValue :
    (value : String)
    → (has_alphanumeric value ≡ false) × (label_safe_value value ≡ "")
      ⊎ (has_alphanumeric value ≡ true) × IsLabelValue (label_safe_value value)
unfolding label_safe_value
label_safe_value-IsLabelValue value = elim (trimmed-cases (map_runes safe_rune value)) [
  | inl (none_, gone) ↦ inl (sym (map_runes-has_alphanumeric value) ∙ none_, gone)
  | inr (some_, kept) ↦
      inr (sym (map_runes-has_alphanumeric value) ∙ some_, (kept, safe-IsLabelText value))
]

map_runes_of_HasLabelRunes : (s : String) → HasLabelRunes s → map_runes safe_rune s ≡ s
unfolding map_runes safe_rune
map_runes_of_HasLabelRunes String.[] h = refl
map_runes_of_HasLabelRunes (String.◌∷◌ r s) (h, k) = rw (map_runes_of_HasLabelRunes s k, h)

trim_left_of_StartsAlphanumeric : (s : String) → StartsAlphanumeric s → trim_left s ≡ s
unfolding trim_left
trim_left_of_StartsAlphanumeric String.[] h = refl
trim_left_of_StartsAlphanumeric (String.◌∷◌ r s) h = ground arith

trim_right_of_EndsAlphanumeric : (s : String) → EndsAlphanumeric s → trim_right s ≡ s
unfolding trim_right cons_unless_trimmed
trim_right_of_EndsAlphanumeric String.[] h = refl
trim_right_of_EndsAlphanumeric (String.◌∷◌ r String.[]) h = rw h
trim_right_of_EndsAlphanumeric (String.◌∷◌ r (String.◌∷◌ q s)) h =
    ap (cons_unless_trimmed r) (trim_right_of_EndsAlphanumeric (String.◌∷◌ q s) h)

text_kept : (s : String) → IsLabelText s → label_safe_value s ≡ s
unfolding label_safe_value
text_kept s v =
    rw (map_runes_of_HasLabelRunes s v.runes, trim_left_of_StartsAlphanumeric s v.first)
      (trim_right_of_EndsAlphanumeric s v.last)

-- A value that is in the grammar already is left as it is, and so is the empty text.
pub label_safe_value_of_IsLabelValue :
    (s : String) → (s ≡ "") ⊎ IsLabelValue s → label_safe_value s ≡ s
unfolding label_safe_value map_runes trim_left trim_right
label_safe_value_of_IsLabelValue s (inl e) = rw e refl
label_safe_value_of_IsLabelValue s (inr v) = text_kept s v.1
