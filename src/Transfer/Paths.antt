-- ===== src/Transfer/Paths.antt =====
-- The paths of incoming files: `_sanitize_relative_path` and `_ensure_inside_base_dir` of
-- src/file_transfer/file_receiver.py, and what they use of `os.path` and `PurePosixPath`.
use mathlib.Core.List.{reverse}
use link_chat.Prelude.{
  ℕ, ◌≡◌, refl, Bool, true, false, ◌&&◌, ◌||◌, not, Option, none, some, List, [], ◌∷◌, ◌++◌, ◌==◌,
  if◌then◌else◌,
}
use link_chat.Text.{Text, codes}
use link_chat.Text.Equality.{text_eq}

abbrev pub slash : ℕ
slash = b'/'

abbrev glue : ℕ → List Text → List Text
glue c [] = (c ∷ []) ∷ []
glue c (l ∷ ls) = (c ∷ l) ∷ ls

-- `path.split("/")`
unfoldable pub split_slash : Text → List Text
split_slash [] = [] ∷ []
split_slash (c ∷ s) = let rest = split_slash s in if c == slash then [] ∷ rest else glue c rest

-- `"/".join(parts)`
unfoldable pub join_slash : List Text → Text
join_slash [] = []
join_slash (p ∷ []) = p
join_slash (p ∷ q ∷ ps) = p ++ slash ∷ join_slash (q ∷ ps)

abbrev pub is_absolute : Text → Bool
is_absolute [] = false
is_absolute (c ∷ s) = c == slash

abbrev dots : Text
dots = b'.' ∷ b'.' ∷ []

abbrev dot : Text
dot = b'.' ∷ []

-- `PurePosixPath(p).parts` of a relative path: empty segments and `.` go.
unfoldable pub parts : List Text → List Text
parts [] = []
parts (s ∷ ss) = let rest = parts ss in if text_eq s [] || text_eq s dot then rest else s ∷ rest

unfoldable pub has_dots : List Text → Bool
has_dots [] = false
has_dots (s ∷ ss) = text_eq s [] || text_eq s dots || has_dots ss

-- `as_posix()` of a relative path
abbrev as_posix : List Text → Text
as_posix [] = dot
as_posix (p ∷ ps) = join_slash (p ∷ ps)

unfoldable pub sanitize_relative_path : Option Text → Option Text
unfolding split_slash join_slash parts has_dots
sanitize_relative_path none = none
sanitize_relative_path (some []) = none
sanitize_relative_path (some (c ∷ s)) =
    if is_absolute (c ∷ s)
    then none
    else let ps = parts (split_slash (c ∷ s)) in if has_dots ps then none else some (as_posix ps)

-- `os.path.join(base, p)` of two paths
unfoldable pub ends_slash : Text → Bool
ends_slash [] = false
ends_slash (c ∷ []) = c == slash
ends_slash (c ∷ d ∷ s) = ends_slash (d ∷ s)

unfoldable pub join_path : Text → Text → Text
unfolding ends_slash
join_path base [] = if text_eq base [] || ends_slash base then base else base ++ slash ∷ []
join_path base (c ∷ p) =
    if is_absolute (c ∷ p)
    then c ∷ p
    else if text_eq base [] || ends_slash base
    then base ++ c ∷ p
    else base ++ slash ∷ c ∷ p

-- The loop of `os.path.normpath`; `done` holds the components kept, the last one first.
unfoldable pub norm_loop : Bool → List Text → List Text → List Text
norm_loop absolute [] done = reverse done
norm_loop absolute (s ∷ ss) done = norm_loop absolute ss (
    if text_eq s [] || text_eq s dot
    then done
    else if not (text_eq s dots)
    then s ∷ done
    else elim done [
      | [] ↦ if absolute then [] else s ∷ []
      | d ∷ ds ↦ if text_eq d dots then s ∷ d ∷ ds else ds
    ])

-- Two slashes in front stay two, three or more become one.
abbrev leading : Text → Text
leading [] = []
leading (a ∷ []) = if a == slash then slash ∷ [] else []
leading (a ∷ b ∷ []) =
    if a == slash then (if b == slash then slash ∷ slash ∷ [] else slash ∷ []) else []
leading (a ∷ b ∷ c ∷ s) =
    if a == slash
    then (if b == slash && not (c == slash) then slash ∷ slash ∷ [] else slash ∷ [])
    else []

abbrev or_dot : Text → Text
or_dot [] = dot
or_dot (c ∷ s) = c ∷ s

unfoldable pub normpath : Text → Text
unfolding split_slash join_slash norm_loop
normpath p = or_dot (leading p ++ join_slash (norm_loop (is_absolute p) (split_slash p) []))

-- `t.startswith(s)`
unfoldable pub starts_with : Text → Text → Bool
starts_with s [] = true
starts_with [] (c ∷ p) = false
starts_with (d ∷ s) (c ∷ p) = d == c && starts_with s p

-- `os.path.realpath` reads the file system: a parameter.
module _ (realpath : Text → Text) where
  unfoldable pub ensure_inside_base_dir : Text → Text → Bool
  unfolding starts_with
  ensure_inside_base_dir base_dir candidate_path =
      let base_real = realpath base_dir in
      let cand_real = realpath candidate_path in
      text_eq cand_real base_real || starts_with cand_real (base_real ++ slash ∷ [])

path_tests :
    (normpath (codes "/shared/../etc//x/./y/..") ≡ codes "/etc/x")
    × (normpath (codes "//a") ≡ codes "//a")
    × (normpath (codes "") ≡ codes ".")
    × (normpath (codes "a/../..") ≡ codes "..")
    × (sanitize_relative_path (some (codes "a//./b")) ≡ some (codes "a/b"))
    × (sanitize_relative_path (some (codes "a/../b")) ≡ none)
    × (sanitize_relative_path (some (codes ".")) ≡ some (codes "."))
    × (join_path (codes "/shared") (codes "a/b") ≡ codes "/shared/a/b")
unfolding normpath sanitize_relative_path join_path text_eq
path_tests = (refl, refl, refl, refl, refl, refl, refl, refl)
