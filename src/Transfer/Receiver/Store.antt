-- ===== src/Transfer/Receiver/Store.antt =====
-- The files that the receiver writes: a content for each path that is there.
use link_chat.Prelude.{ℕ, zero, suc, Option, none, some, [], ◌∷◌, if◌then◌else◌}
use link_chat.Text.{Text, Bytes}
use link_chat.Text.Equality.{text_eq}

abbrev pub Files : Type 0
Files = Text → Option Bytes

-- `open(path, "wb")` and the bytes written
unfoldable pub write_file : Text → Bytes → Files → Files
write_file path content files p = if text_eq path p then some content else files p

-- `os.replace(src, dst)` of a file with that content
unfoldable pub replace_file : Text → Text → Bytes → Files → Files
replace_file src dst content files p =
    if text_eq dst p then some content else if text_eq src p then none else files p

-- `f.seek(off); f.write(bs)`: a gap before `off` is filled with zeros.
unfoldable pub write_at : ℕ → Bytes → Bytes → Bytes
write_at zero [] content = content
write_at zero (b ∷ bs) [] = b ∷ write_at zero bs []
write_at zero (b ∷ bs) (c ∷ content) = b ∷ write_at zero bs content
write_at (suc off) [] content = content
write_at (suc off) (b ∷ bs) [] = 0 ∷ write_at off (b ∷ bs) []
write_at (suc off) (b ∷ bs) (c ∷ content) = c ∷ write_at off (b ∷ bs) content
