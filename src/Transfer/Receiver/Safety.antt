-- ===== src/Transfer/Receiver/Safety.antt =====
-- Where the receiver writes.
use link_chat.Prelude.{
  ℕ, ◌≡◌, refl, Bool, true, false, ◌||◌, Option, some, if◌then◌else◌, Result, ok, err,
}
use link_chat.Prelude.Int.{ℤ, pos_part}
use link_chat.Text.{Text, codes}
use link_chat.Frame.{FrameSchema}
use link_chat.Transfer.Paths.{ensure_inside_base_dir}
use link_chat.Transfer.Receiver.{Host, Rx, refuse, send_fin}
use link_chat.Transfer.Receiver.Meta.{
  MetaFields, dest_path, place_file, check_meta, meta_numbers, or_unknown, is_empty, bad_ranges,
  meta_rel,
}

-- The files and the transfers are as they were.
pub record Kept (s t : Rx) : Type 0 where
  pub files : t.files ≡ s.files
  pub transfers : t.ctx_by_id ≡ s.ctx_by_id

Kept-if : (b : Bool) (s t u : Rx) → Kept s t → Kept s u → Kept s (if b then t else u)
Kept-if true s t u h k = h
Kept-if false s t u h k = k

module _ (host : Host) where
  refuse-Kept :
      (file_id src : Text) (name rel : Option Text) (reason : Text) (s : Rx)
      → Kept s (refuse host file_id src name rel reason s)
  unfolding refuse send_fin
  refuse-Kept file_id src name rel reason s = record { files = refl; transfers = refl }

  place_file-Kept :
      (m : MetaFields) (frame : FrameSchema) (size chunk_size total : ℕ) (s : Rx)
      → ensure_inside_base_dir host.realpath host.base_dir (dest_path host m) ≡ false
      → Kept s (place_file host m frame size chunk_size total s)
  unfolding place_file
  place_file-Kept m frame size chunk_size total s h = rw h (refuse-Kept _ _ _ _ _ s)

  -- A FILE_META whose destination is outside the base directory leaves all files and all transfers
  -- as they were, whatever its other fields say.
  pub check_meta-Kept :
      (m : MetaFields) (frame : FrameSchema) (s : Rx)
      → ensure_inside_base_dir host.realpath host.base_dir (dest_path host m) ≡ false
      → Kept s (check_meta host m frame s)
  unfolding check_meta
  check_meta-Kept m frame s h = by_numbers (meta_numbers m) refl
    where
      refused :
          (file_id reason : Text)
          → Kept s (refuse host file_id frame.src_mac (some m.name) (meta_rel m) reason s)
      refused file_id reason = refuse-Kept file_id frame.src_mac (some m.name) (meta_rel m) reason s

      by_numbers :
          (r : Result (ℤ × ℤ × ℤ)) → meta_numbers m ≡ r → Kept s (check_meta host m frame s)
      by_numbers (err e) q =
          rw (check_meta, q) (refused (or_unknown (some m.file_id)) (codes "bad_meta_non_numeric"))
      by_numbers (ok n) q =
          rw (check_meta, q)
            (Kept-if (is_empty m.file_id || is_empty m.name || is_empty m.sha256) s _ _
              (refused (or_unknown (some m.file_id)) (codes "bad_meta_empty_str"))
              (Kept-if (bad_ranges n) s _ _ (refused m.file_id (codes "bad_meta_ranges"))
                (place_file-Kept m frame (pos_part n.0) (pos_part n.1) (pos_part n.2) s h)))
