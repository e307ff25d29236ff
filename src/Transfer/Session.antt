-- ===== src/Transfer/Session.antt =====
-- The two ends of one transfer, from the first acknowledgement on: src/file_transfer/file_sender.py
-- and the pump of src/core/managers/service_threads.py on one node,
-- src/file_transfer/file_receiver.py on the other.
pub mod Acked
pub mod Linked
pub mod Delivered
use link_chat.Prelude.{
  get_elem?, if_cases, ℕ, zero, suc, ◌+◌, ◌-◌, ◌*◌, ◌/◌, ◌%◌, ◌^◌, ◌≤◌, ◌<◌, min, max, bit_and,
  bit_or, bit_xor, String, ◌≡◌, refl, sym, ap, ◌∙◌, subst, ◌≢◌, ◌↔◌, ◌⊎◌, inl, inr, Bool, true,
  false, ◌&&◌, ◌||◌, not, Option, none, some, List, [], ◌∷◌, ◌++◌, map, arith, ltb, leb, ◌==◌,
  if◌then◌else◌, ltb→lt, lt→ltb, leb→le, le→leb, ==_iff, ==_refl, le_split, lt_split, Bool-cases,
  Option-cases, length, take, drop, replicate, All, length-append, length-take, length-drop,
  length-replicate, take-append-drop, take-append, drop-append, take_all, drop-drop, All-append,
  All-take, All-drop, Error, value_error, struct_error, unicode_error, file_not_found,
  zero_division, Result, ok, err, ◌>>=◌, ◌>>◌, guard, >>=-eq-ok,
}
use link_chat.Dict.{Dict, get}
use link_chat.Text.{Text, Bytes}
use link_chat.Text.Equality.{text_key}
use link_chat.Frame.{MessageType, FrameSchema, HeaderSchema}
use link_chat.Transfer.{Node, FileSendCtx}
use link_chat.Transfer.Window.{Tx, pump_ctx}
use link_chat.Transfer.Sender.{on_ack, on_fin}
use link_chat.Transfer.Receiver.{Host, Rx}
use link_chat.Transfer.Receiver.Data.{on_data}

-- The queues keep what was sent: any of their frames can arrive, at any time, more than once or
-- never.
pub record Session : Type 0 where
  pub tx : Tx
  pub rx : Rx

-- The sender's transfers, when this is the only one.
abbrev pub only : FileSendCtx → Dict Text FileSendCtx
only ctx = (ctx.file_id, ctx) ∷ []

-- What happens next: a round of the pump, a chunk at the receiver, an acknowledgement or a
-- FILE_FIN at the sender.
pub data Step (node : Node) (host : Host) (original : Bytes) (s : Session) : Session → Type 0 where
  pump :
      (now : ℕ) (stamp : ℕ → ℕ)
      → s.tx.ctx.finished ≡ false
      → Step node host original s (record { tx = pump_ctx node original stamp now s.tx; rx = s.rx })
  data_arrives :
      (i : ℕ) (frame : FrameSchema) (rx : Rx)
      → get_elem? s.tx.outgoing i ≡ some frame
      → frame.header.message_type ≡ MessageType.file_data
      → on_data host frame s.rx ≡ ok rx
      → Step node host original s (record { tx = s.tx; rx = rx })
  ack_arrives :
      (i : ℕ) (frame : FrameSchema) (ctxs : Dict Text FileSendCtx) (ctx : FileSendCtx)
      → get_elem? s.rx.outgoing i ≡ some frame
      → frame.header.message_type ≡ MessageType.ack
      → on_ack frame (only s.tx.ctx) ≡ ok ctxs
      → get s.tx.ctx.file_id ctxs ≡ some ctx
      → Step node host original s (record { tx = record (s.tx) { ctx = ctx }; rx = s.rx })
  fin_arrives :
      (i : ℕ) (frame : FrameSchema) (ctxs : Dict Text FileSendCtx) (ctx : FileSendCtx)
      → get_elem? s.rx.outgoing i ≡ some frame
      → frame.header.message_type ≡ MessageType.file_fin
      → on_fin frame (only s.tx.ctx) ≡ ok ctxs
      → get s.tx.ctx.file_id ctxs ≡ some ctx
      → Step node host original s (record { tx = record (s.tx) { ctx = ctx }; rx = s.rx })

pub data Reach (node : Node) (host : Host) (original : Bytes) (s : Session) : Session → Type 0 where
  start : Reach node host original s s
  later :
      {t u : Session}
      → Reach node host original s t
      → Step node host original t u
      → Reach node host original s u
