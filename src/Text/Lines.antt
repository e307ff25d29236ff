-- ===== src/Text/Lines.antt =====
-- `str.splitlines()` and the two halves of `str.split("=", 1)`.
use link_chat.Prelude.{
  ℕ, List, [], ◌∷◌, ◌++◌, false, ◌&&◌, if◌then◌else◌, ◌==◌, ◌≡◌, refl, ap, ◌∙◌, All, Option, none,
  some,
}
use link_chat.Text.{Text, is_break}

-- Put one character in front of the first line.
abbrev glue : ℕ → List Text → List Text
glue c [] = (c ∷ []) ∷ []
glue c (l ∷ ls) = (c ∷ l) ∷ ls

-- A carriage return and the line feed after it are one break.
skip_feed : ℕ → Text → Text
skip_feed c [] = []
skip_feed c (d ∷ s) = if c == 13 && d == 10 then s else d ∷ s

-- What is read so far of the current line stands first; a text that ends at a break has no
-- empty last line.
unfoldable pub splitlines : Text → List Text
splitlines [] = []
splitlines (c ∷ []) = if is_break c then [] ∷ [] else (c ∷ []) ∷ []
splitlines (c ∷ d ∷ s) =
    let rest = splitlines s in
    let whole = splitlines (d ∷ s) in
    if is_break c then [] ∷ (if c == 13 && d == 10 then rest else whole) else glue c whole

-- What stands before and after the first `=`, or nothing if there is none.
unfoldable pub split_eq : Text → Option (Text × Text)
split_eq [] = none
split_eq (c ∷ s) =
    if c == b'='
    then some ([], s)
    else elim (split_eq s) [ none ↦ none | some (k, v) ↦ some (c ∷ k, v) ]

-- A text with no line break in it.
abbrev pub IsOneLine : Text → Type 0
IsOneLine = All (λ c. is_break c ≡ false)

abbrev pub HasNoEq : Text → Type 0
HasNoEq = All (λ c. (c == b'=') ≡ false)

line_step : (c : ℕ) (s : Text) → is_break c ≡ false → splitlines (c ∷ s) ≡ glue c (splitlines s)
unfolding splitlines
line_step c [] h = rw h
line_step c (d ∷ s) h = rw h

pub splitlines_nil : splitlines [] ≡ []
unfolding splitlines
splitlines_nil = refl

feed_step : (s : Text) → splitlines (10 ∷ s) ≡ [] ∷ splitlines s
unfolding splitlines is_break
feed_step [] = refl
feed_step (d ∷ s) = refl

-- One line and its line feed, in front of the others.
pub splitlines-line :
    (l : Text) (s : Text) → IsOneLine l → splitlines (l ++ 10 ∷ s) ≡ l ∷ splitlines s
splitlines-line [] s h = feed_step s
splitlines-line (c ∷ l) s h = line_step c (l ++ 10 ∷ s) h.0 ∙ ap (glue c) (splitlines-line l s h.1)

pub split_eq_pair : (k v : Text) → HasNoEq k → split_eq (k ++ b'=' ∷ v) ≡ some (k, v)
unfolding split_eq
split_eq_pair [] v h = refl
split_eq_pair (c ∷ k) v h = rw (h.0, split_eq_pair k v h.1)

-- One line alone.
pub splitlines_one : (c : ℕ) (l : Text) → IsOneLine (c ∷ l) → splitlines (c ∷ l) ≡ (c ∷ l) ∷ []
splitlines_one c [] h = line_step c [] h.0 ∙ ap (glue c) splitlines_nil
splitlines_one c (d ∷ l) h = line_step c (d ∷ l) h.0 ∙ ap (glue c) (splitlines_one d l h.1)
