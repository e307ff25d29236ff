-- ===== src/Text/Strip.antt =====
-- `str.strip()`: the white space at both ends goes.
use mathlib.Core.List.{reverse, reverse-reverse, reverse-cons}
use link_chat.Prelude.{List, [], ◌∷◌, false, if◌then◌else◌, ◌≡◌, refl, All, All-append}
use link_chat.Text.{Text, is_space}

lstrip : Text → Text
lstrip [] = []
lstrip (c ∷ s) = if is_space c then lstrip s else c ∷ s

unfoldable pub strip : Text → Text
unfolding lstrip
strip s = reverse (lstrip (reverse (lstrip s)))

-- The first character, if there is one, is no white space.
abbrev pub StartsSolid : Text → Type 0
StartsSolid [] = Unit
StartsSolid (c ∷ s) = is_space c ≡ false

-- Neither end is white space: what `strip` leaves alone.
pub record IsStripped (s : Text) : Type 0 where
  pub front : StartsSolid s
  pub back : StartsSolid (reverse s)

lstrip_solid : (s : Text) → StartsSolid s → lstrip s ≡ s
unfolding lstrip
lstrip_solid [] h = refl
lstrip_solid (c ∷ s) h = rw h

pub strip_id : (s : Text) → IsStripped s → strip s ≡ s
unfolding strip
strip_id s h =
    rw (lstrip_solid s h.front) (rw (lstrip_solid (reverse s) h.back) (reverse-reverse s))

-- No white space anywhere.
abbrev pub IsSolid : Text → Type 0
IsSolid = All (λ c. is_space c ≡ false)

All-reverse {ℓ κ} : {A : Type ℓ} (P : A → Type κ) (xs : List A) → All P xs → All P (reverse xs)
All-reverse P [] h = tt
All-reverse P (x ∷ xs) h =
    rw reverse-cons (All-append P (reverse xs) (x ∷ []) (All-reverse P xs h.1) (h.0, tt))

starts : (s : Text) → IsSolid s → StartsSolid s
starts [] h = tt
starts (c ∷ s) h = h.0

pub IsSolid-IsStripped : (s : Text) → IsSolid s → IsStripped s
IsSolid-IsStripped s h = record {
  front = starts s h;
  back = starts (reverse s) (All-reverse _ s h);
}
