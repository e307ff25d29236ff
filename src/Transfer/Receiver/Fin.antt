-- ===== src/Transfer/Receiver/Fin.antt =====
-- The two ways to build a FILE_FIN.
use link_chat.Prelude.{ℕ, ◌≡◌, refl, sym, ap, ◌∙◌, Option, none, some, [], ◌∷◌}
use mathlib.Core.List.{append_assoc, append-nil}
use link_chat.Text.{Text}
use link_chat.Text.Utf8.{encode}
use link_chat.Payload.{kv_text, kv_line, join_lines}
use link_chat.Dict.{get}
use link_chat.Text.Equality.{text_key}
use link_chat.Frame.{MessageType}
use link_chat.Payload.RoundTrip.{kv_bytes-encode}
use link_chat.Transfer.{FileRcvCtx, fin_pairs, receiver_get_file_fin_frame, get_frame}
use link_chat.Transfer.Receiver.{Host, Rx, queue, fin_text, send_fin}

fin_text-kv_text :
    (file_id status reason : Text)
    → fin_text file_id status reason ≡ kv_text (fin_pairs file_id status reason)
unfolding kv_text join_lines kv_line
fin_text-kv_text file_id status [] = simp (append_assoc, append-nil)
fin_text-kv_text file_id status (c ∷ r) = simp append_assoc

fin_frame :
    (host : Host) (seq : ℕ) (file_id dst_mac status reason : Text)
    → get_frame host.node seq dst_mac MessageType.file_fin (encode (fin_text file_id status reason))
      ≡ receiver_get_file_fin_frame host.node seq dst_mac file_id status reason
unfolding receiver_get_file_fin_frame
fin_frame host seq file_id dst_mac status reason =
    ap (λ t. get_frame host.node seq dst_mac MessageType.file_fin (encode t))
      (fin_text-kv_text file_id status reason)
    ∙ ap (get_frame host.node seq dst_mac MessageType.file_fin)
        (sym (kv_bytes-encode (fin_pairs file_id status reason)))

-- Whether the transfer is known or not, `_send_fin` queues the frame that the handler's
-- `receiver_get_file_fin_frame` makes.
pub send_fin-receiver_get_file_fin_frame :
    (host : Host) (file_id dst_mac status reason : Text) (s : Rx)
    → send_fin host file_id dst_mac status reason s
      ≡ queue s (receiver_get_file_fin_frame host.node s.seq dst_mac file_id status reason)
unfolding send_fin
send_fin-receiver_get_file_fin_frame host file_id dst_mac status reason s =
    by_ctx (get file_id s.ctx_by_id) refl
  where
    by_ctx :
        (found : Option FileRcvCtx)
        → get file_id s.ctx_by_id ≡ found
        → send_fin host file_id dst_mac status reason s
          ≡ queue s (receiver_get_file_fin_frame host.node s.seq dst_mac file_id status reason)
    by_ctx none e = rw e (ap (queue s) (fin_frame host s.seq file_id dst_mac status reason))
    by_ctx (some ctx) e = rw e refl
