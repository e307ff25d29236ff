-- ===== src/Transfer/Receiver.antt =====
-- src/file_transfer/file_receiver.py: what a node does with the frames of an incoming file.
pub mod Store
pub mod Meta
pub mod Data
pub mod Header
pub mod Target
pub mod Arrival
pub mod Order
pub mod States
pub mod Single
pub mod Complete
pub mod Answers
pub mod Fin
pub mod Announced
pub mod Whole
pub mod Progress
pub mod Chunks
pub mod Assembly
pub mod Safety
use link_chat.Prelude.{ℕ, Option, none, some, List, [], ◌∷◌, ◌++◌, Result}
use link_chat.Dict.{Dict, get}
use link_chat.Text.{Text, Bytes, codes}
use link_chat.Text.Equality.{text_eq, text_key}
use link_chat.Text.Utf8.{encode}
use link_chat.Text.Decimal.{format}
use link_chat.Frame.{MessageType, FrameSchema}
use link_chat.Transfer.{Node, FileRcvCtx, get_frame, receiver_get_file_fin_frame}
use link_chat.Transfer.Events.{Bus, emit_error}

-- What the receiver takes from its surroundings: the node, the directory of the incoming files,
-- `os.path.realpath`, and the hexadecimal SHA-256 digest of a file's content.
pub record Host : Type 0 where
  pub node : Node
  pub base_dir : Text
  pub realpath : Text → Text
  pub sha256_hex : Bytes → Text

-- The receiver's contexts, with what it shares with the rest of the node: the sequence number of
-- the frame factory, the outgoing queue (oldest first), the files and the event sinks.
pub record Rx : Type 0 where
  pub seq : ℕ
  pub outgoing : List FrameSchema
  pub ctx_by_id : Dict Text FileRcvCtx
  pub files : Text → Option Bytes
  pub bus : Bus

abbrev pub queue : Rx → FrameSchema × ℕ → Rx
queue s (frame, seq) = record s { seq = seq; outgoing = s.outgoing ++ frame ∷ [] }

abbrev pub emit : (Bus → Bus) → Rx → Rx
emit f s = record s { bus = f s.bus }

-- The payload of `_send_fin` for a transfer that it does not know.
abbrev pub fin_text : Text → Text → Text → Text
fin_text file_id status reason =
    (codes "file_id=" ++ (file_id ++ 10 ∷ (codes "status=" ++ (status ++ 10 ∷ []))))
    ++ (elim reason [ [] ↦ [] | c ∷ r ↦ codes "reason=" ++ ((c ∷ r) ++ 10 ∷ []) ])

module _ (host : Host) where
  unfoldable pub send_ack : Text → Text → ℕ → Rx → Rx
  unfolding get_frame
  send_ack file_id dst_mac next_needed s = queue s (
      get_frame host.node s.seq dst_mac MessageType.ack (
        encode (
          codes "file_id="
          ++ (file_id ++ 10 ∷ (codes "next_needed=" ++ (format next_needed ++ 10 ∷ []))))))

  unfoldable pub send_fin : Text → Text → Text → Text → Rx → Rx
  unfolding get_frame receiver_get_file_fin_frame
  send_fin file_id dst_mac status reason s = queue s (elim (get file_id s.ctx_by_id) [
    | none ↦
        get_frame host.node s.seq dst_mac MessageType.file_fin
          (encode (fin_text file_id status reason))
    | some ctx ↦ receiver_get_file_fin_frame host.node s.seq dst_mac file_id status reason
  ])

  -- `_send_fin(…, "error", …)` with the `emit_error` that follows it everywhere.
  unfoldable pub refuse : Text → Text → Option Text → Option Text → Text → Rx → Rx
  unfolding send_fin emit_error
  refuse file_id src name rel reason s =
      emit (emit_error file_id src name rel reason) (send_fin file_id src (codes "error") reason s)
