-- ===== src/Threads.antt =====
-- src/core/managers/service_threads.py: one round of each loop of the `ThreadManager`, its registry
-- and its tasks. The rest of the file, `_pump`, is in Transfer/Window.antt.
pub mod Delivery
pub mod Scheduler
use link_chat.Prelude.{
  ◌>>=◌, ◌≡◌, ◌↔◌, Bool, true, none, some, List, [], ◌∷◌, ◌++◌, arith, ◌==◌, Result, ok, err,
}
use link_chat.Dict.{Dict, get, put, pop}
use link_chat.Text.{Text, Bytes}
use link_chat.Text.Equality.{Eq}
use link_chat.Frame.{MessageType, FrameSchema, value}
use link_chat.Frame.Codec.{create_ethernet_frame, decode_ethernet_frame}
use link_chat.Security.{Hmac}
use link_chat.Security.Manager.{protect_outgoing, accept_incoming}

unfoldable pub type_eq : MessageType → MessageType → Bool
unfolding value
type_eq a b = value a == value b

pub type_eq_iff : (a b : MessageType) → (type_eq a b ≡ true) ↔ (a ≡ b)
unfolding type_eq
type_eq_iff a b = ground arith

instance abbrev pub type_key : Eq MessageType
type_key = record { beq = type_eq; beq_iff = type_eq_iff }

-- The two queues, oldest first, and the frames that went out on the socket.
pub record Queues : Type 0 where
  pub incoming : List FrameSchema
  pub outgoing : List FrameSchema
  pub wire : List Bytes

unfoldable pub queue_frame_for_sending : FrameSchema → Queues → Queues
queue_frame_for_sending frame q = record q { outgoing = q.outgoing ++ frame ∷ [] }

module _ (h : Hmac) (pre_shared_key : Bytes) where
  -- A frame that is decoded and accepted joins the queue; every exception drops it.
  unfoldable pub take_frame : FrameSchema → Queues → Queues
  take_frame frame q = elim (accept_incoming h pre_shared_key frame) [
    | err e ↦ q
    | ok accepted ↦ elim accepted [
      | none ↦ q
      | some clear ↦ record q { incoming = q.incoming ++ clear ∷ [] }
    ]
  ]

  -- A round of `_receiver_loop` with what the socket gave.
  unfoldable pub receiver_round : Bytes → Queues → Queues
  unfolding take_frame
  receiver_round [] q = q
  receiver_round (b ∷ bs) q = elim (decode_ethernet_frame (b ∷ bs)) [
    | err e ↦ q
    | ok frame ↦ take_frame frame q
  ]

  -- What the socket gets for a frame.
  unfoldable pub send_bytes : Bytes → FrameSchema → Result Bytes
  send_bytes nonce frame = do
    protected ← protect_outgoing h pre_shared_key nonce frame
    create_ethernet_frame protected

  -- A round of `_sender_loop`: the frame leaves the queue, also where an exception drops it.
  unfoldable pub sender_step : Bytes → List FrameSchema → Queues → Queues
  unfolding send_bytes
  sender_step nonce [] q = q
  sender_step nonce (frame ∷ rest) q = elim (send_bytes nonce frame) [
    | err e ↦ record q { outgoing = rest }
    | ok bytes ↦ record q { outgoing = rest; wire = q.wire ++ bytes ∷ [] }
  ]

  unfoldable pub sender_round : Bytes → Queues → Queues
  unfolding sender_step
  sender_round nonce q = sender_step nonce q.outgoing q

-- The registry of handlers, over the handlers `H` and the state `S` that they work on. `run` gives
-- the state that a handler leaves, whether it returns or raises: the loop catches both.
module _ {H S : Type 0} (run : H → FrameSchema → S → S) where
  -- A round of `_dispatcher_loop`: the rest of the queue and the state after the handler.
  unfoldable pub dispatch : Dict MessageType H → FrameSchema → S → S
  dispatch handlers frame s = elim (get frame.header.message_type handlers) [
    | none ↦ s
    | some handler ↦ run handler frame s
  ]

  unfoldable pub dispatcher_round : Dict MessageType H → List FrameSchema → S → List FrameSchema × S
  unfolding dispatch
  dispatcher_round handlers [] s = ([], s)
  dispatcher_round handlers (frame ∷ rest) s = (rest, dispatch handlers frame s)

module _ {H : Type 0} where
  unfoldable pub add_message_handler : MessageType → H → Dict MessageType H → Dict MessageType H
  add_message_handler msg_type f handlers = put msg_type f handlers

  unfoldable pub remove_message_handler : MessageType → Dict MessageType H → Dict MessageType H
  remove_message_handler msg_type handlers = pop msg_type handlers
