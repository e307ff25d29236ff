-- ===== src/Payload.antt =====
-- The `key=value` lines of the payloads: `_kv_bytes` of
-- src/file_transfer/handlers/file_transfer_handler.py and src/file_transfer/helpers/parse_payload.py.
pub mod RoundTrip
pub mod Fields
use link_chat.Prelude.{none, some, List, [], ◌∷◌, ◌++◌, map, Result}
use link_chat.Dict.{Dict, put}
use link_chat.Text.{Text, Bytes, codes}
use link_chat.Text.Equality.{text_key}
use link_chat.Text.Utf8.{encode}
use link_chat.Text.Strip.{strip}
use link_chat.Text.Lines.{splitlines, split_eq}

-- `"\n".join(lines)`
unfoldable pub join_lines : List Text → Text
join_lines [] = []
join_lines (l ∷ []) = l
join_lines (l ∷ m ∷ ls) = l ++ 10 ∷ join_lines (m ∷ ls)

unfoldable pub kv_line : Text × Text → Text
kv_line (k, v) = k ++ b'=' ∷ v

-- The text that `_kv_bytes` encodes.
unfoldable pub kv_text : List (Text × Text) → Text
unfolding join_lines kv_line
kv_text kvs = join_lines (map kv_line kvs) ++ 10 ∷ []

unfoldable pub kv_bytes : List (Text × Text) → Bytes
unfolding kv_text encode
kv_bytes kvs = encode (kv_text kvs)

-- One round of the loop of `parse_payload`: a line with no `=` is skipped.
unfoldable pub parse_line : Text → Dict Text Text → Dict Text Text
parse_line line out = elim (split_eq line) [
  | none ↦ out
  | some (k, v) ↦ put (strip k) (strip v) out
]

unfoldable pub parse_lines : List Text → Dict Text Text → Dict Text Text
unfolding parse_line
parse_lines [] out = out
parse_lines (line ∷ rest) out =
    parse_lines rest (elim line [ [] ↦ out | c ∷ s ↦ parse_line (c ∷ s) out ])

unfoldable pub parse_payload : Text → Dict Text Text
unfolding parse_lines
parse_payload s = parse_lines (splitlines s) []
