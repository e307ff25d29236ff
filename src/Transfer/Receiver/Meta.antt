-- ===== src/Transfer/Receiver/Meta.antt =====
-- `FileReceiver._on_meta`.
use link_chat.Prelude.{
  ℕ, Bool, true, false, ◌||◌, Option, none, some, [], ◌∷◌, ◌++◌, ◌==◌, if◌then◌else◌, Result, ok,
  err, ◌>>=◌,
}
use link_chat.Prelude.Int.{ℤ, pos, pos_part, ltb_ℤ, leb_ℤ}
use link_chat.Dict.{Dict, get, put, pop}
use link_chat.Text.{Text, codes, lower}
use link_chat.Text.Equality.{text_eq, text_key}
use link_chat.Text.Utf8.{decode}
use link_chat.Text.Decimal.{int}
use link_chat.Frame.{FrameSchema}
use link_chat.Payload.{parse_payload}
use link_chat.Transfer.{FileRcvCtx}
use link_chat.Transfer.Events.{emit_started, emit_progress, emit_finished, emit_error}
use link_chat.Transfer.Paths.{sanitize_relative_path, join_path, normpath, ensure_inside_base_dir}
use link_chat.Transfer.Receiver.{Host, Rx, emit, send_ack, send_fin, refuse}
use link_chat.Transfer.Receiver.Store.{write_file, replace_file}

-- The required fields, once all are there, and the two path fields.
pub record MetaFields : Type 0 where
  pub file_id : Text
  pub name : Text
  pub size_text : Text
  pub sha256 : Text
  pub chunk_text : Text
  pub total_text : Text
  pub path : Option Text
  pub rel : Option Text

unfoldable pub meta_fields : Dict Text Text → Option MetaFields
meta_fields kv = elim (get (codes "file_id") kv) [
  | none ↦ none
  | some i ↦ elim (get (codes "name") kv) [
    | none ↦ none
    | some n ↦ elim (get (codes "size") kv) [
      | none ↦ none
      | some s ↦ elim (get (codes "sha256") kv) [
        | none ↦ none
        | some h ↦ elim (get (codes "chunk_size") kv) [
          | none ↦ none
          | some c ↦ elim (get (codes "total") kv) [
            | none ↦ none
            | some t ↦ some (record {
              file_id = i;
              name = n;
              size_text = s;
              sha256 = h;
              chunk_text = c;
              total_text = t;
              path = get (codes "path") kv;
              rel = get (codes "rel") kv;
            })
          ]
        ]
      ]
    ]
  ]
]

-- `x or "unknown"`
abbrev pub or_unknown : Option Text → Text
or_unknown none = codes "unknown"
or_unknown (some []) = codes "unknown"
or_unknown (some (c ∷ s)) = c ∷ s

abbrev pub is_empty : Text → Bool
is_empty [] = true
is_empty (c ∷ s) = false

-- The first of the two candidates that is a valid relative path.
unfoldable pub meta_rel : MetaFields → Option Text
meta_rel m = elim (sanitize_relative_path m.path) [
  | some p ↦ some p
  | none ↦ sanitize_relative_path m.rel
]

unfoldable pub meta_numbers : MetaFields → Result (ℤ × ℤ × ℤ)
meta_numbers m = do
  size ← int m.size_text
  chunk_size ← int m.chunk_text
  total ← int m.total_text
  ok (size, chunk_size, total)

abbrev pub bad_ranges : ℤ × ℤ × ℤ → Bool
bad_ranges (size, chunk_size, total) =
    leb_ℤ chunk_size (pos 0) || ltb_ℤ size (pos 0) || ltb_ℤ total (pos 0)

-- `rel_path if rel_path else name`
abbrev pub dest_rel : MetaFields → Text
dest_rel m = elim (meta_rel m) [ none ↦ m.name | some p ↦ p ]

abbrev pub part_suffix : Text
part_suffix = codes ".part"

module _ (host : Host) where
  unfoldable pub dest_path : MetaFields → Text
  dest_path m = normpath (join_path host.base_dir (dest_rel m))

  unfoldable pub new_ctx : MetaFields → FrameSchema → ℕ → ℕ → ℕ → FileRcvCtx
  unfolding dest_path
  new_ctx m frame size chunk_size total = record {
    file_id = m.file_id;
    src_mac = frame.src_mac;
    dst_mac = frame.dst_mac;
    name = m.name;
    size = size;
    sha256_expected = m.sha256;
    chunk_size = chunk_size;
    total_chunks = total;
    temp_path = dest_path m ++ part_suffix;
    dest_path = dest_path m;
    rel = dest_rel m;
    received = [];
    next_needed = 0;
    finished = false;
  }

  -- `total == 0`: the empty temporary file is the whole file.
  unfoldable pub finish_empty : MetaFields → FrameSchema → Rx → Rx
  finish_empty m frame s =
      let dest = dest_path m in
      let ended =
        if text_eq (lower (host.sha256_hex [])) (lower m.sha256)
        then emit (emit_finished m.file_id frame.src_mac m.name (some (dest_rel m)) (codes "ok")) (
            emit (emit_progress m.file_id frame.src_mac m.name (some (dest_rel m)) 0 0 (1, 1)) (
              send_fin host m.file_id frame.src_mac (codes "ok") []
                (record s { files = replace_file (dest ++ part_suffix) dest [] s.files })))
        else emit
            (emit_error m.file_id frame.src_mac (some m.name) (some (dest_rel m))
              (codes "hash_mismatch"))
            (send_fin host m.file_id frame.src_mac (codes "error") (codes "hash_mismatch") s) in
      record ended { ctx_by_id = pop m.file_id ended.ctx_by_id }

  -- From the destination check on.
  unfoldable pub place_file : MetaFields → FrameSchema → ℕ → ℕ → ℕ → Rx → Rx
  unfolding new_ctx finish_empty
  place_file m frame size chunk_size total s =
      if ensure_inside_base_dir host.realpath host.base_dir (dest_path m)
      then (let opened =
            emit (emit_started m.file_id frame.src_mac m.name (some (dest_rel m)))
              (record s { files = write_file (dest_path m ++ part_suffix) [] s.files }) in
          if total == 0
          then finish_empty m frame opened
          else send_ack host m.file_id frame.src_mac 0 (record opened {
            ctx_by_id = put m.file_id (new_ctx m frame size chunk_size total) opened.ctx_by_id;
          }))
      else refuse host m.file_id frame.src_mac (some m.name) (meta_rel m)
          (codes "path_outside_base") s

  unfoldable pub check_meta : MetaFields → FrameSchema → Rx → Rx
  unfolding place_file
  check_meta m frame s = elim (meta_numbers m) [
    | err e ↦
        refuse host (or_unknown (some m.file_id)) frame.src_mac (some m.name) (meta_rel m)
          (codes "bad_meta_non_numeric") s
    | ok n ↦
        if is_empty m.file_id || is_empty m.name || is_empty m.sha256
        then refuse host (or_unknown (some m.file_id)) frame.src_mac (some m.name) (meta_rel m)
            (codes "bad_meta_empty_str") s
        else if bad_ranges n
        then refuse host m.file_id frame.src_mac (some m.name) (meta_rel m)
            (codes "bad_meta_ranges") s
        else place_file m frame (pos_part n.0) (pos_part n.1) (pos_part n.2) s
  ]

  -- The `UnicodeDecodeError` of the payload leaves the state as it was.
  unfoldable pub on_meta : FrameSchema → Rx → Result Rx
  unfolding check_meta
  on_meta frame s = do
    text ← decode frame.payload
    let kv = parse_payload text
    ok (elim (meta_fields kv) [
      | none ↦
          refuse host (or_unknown (get (codes "file_id") kv)) frame.src_mac none none
            (codes "bad_meta_missing") s
      | some m ↦ check_meta m frame s
    ])
