-- ===== src/Services/Messaging.antt =====
-- src/messaging/service_messaging.py. Times are in milliseconds.
use link_chat.Prelude.{
  ltb, not, ℕ, ◌+◌, ◌%◌, ◌^◌, Bool, true, false, Option, none, some, List, [], ◌∷◌, ◌++◌,
  if◌then◌else◌, length,
}
use link_chat.Dict.{Dict}
use link_chat.Text.{Text, Bytes, codes}
use link_chat.Threads.{add_message_handler, remove_message_handler, type_key}
use link_chat.Frame.{MessageType, FrameSchema}
use link_chat.Transfer.{Node}
use link_chat.Services.Discovery.{Neighbor}

-- `handlers` is the registry of the thread manager, with the names of the methods; `delivered` are the calls of the callback, if one is set, oldest first.
pub record Messaging : Type 0 where
  pub node : Node
  pub seq : ℕ
  pub attached : Bool
  pub handlers : Dict MessageType Text
  pub has_callback : Bool
  pub delivered : List (Text × Bytes)
  pub outgoing : List FrameSchema

unfoldable pub attach : Messaging → Messaging
unfolding add_message_handler
attach m = if m.attached then m else record m {
  attached = true;
  handlers = add_message_handler MessageType.app_message (codes "_on_app_message") m.handlers;
}

unfoldable pub detach : Messaging → Messaging
unfolding remove_message_handler
detach m =
    if m.attached
    then record m {
      attached = false;
      handlers = remove_message_handler MessageType.app_message m.handlers;
    }
    else m

unfoldable pub send_to_mac : Text → Bytes → Messaging → Messaging
send_to_mac dst_mac payload m =
    let seq = (m.seq + 1) % 2 ^ 16 in
    record m {
      seq = seq;
      outgoing =
          m.outgoing
          ++ record {
            dst_mac = dst_mac;
            src_mac = m.node.src_mac;
            ethertype = m.node.ethertype;
            header = record {
              message_type = MessageType.app_message;
              sequence = seq;
              payload_len = length payload;
              checksum = 0;
            };
            payload = payload;
          }
            ∷ [];
    }

unfoldable pub send_to_macs : List Text → Bytes → Messaging → Messaging
unfolding send_to_mac
send_to_macs [] payload m = m
send_to_macs (mac ∷ macs) payload m = send_to_macs macs payload (send_to_mac mac payload m)

-- `None` stands for a window of 60 seconds.
abbrev pub window : Option ℕ → ℕ
window none = 60000
window (some w) = w

unfoldable pub is_active : ℕ → Option ℕ → Neighbor → Bool
is_active now only_active_since n = not (ltb (n.last_seen + window only_active_since) now)

unfoldable pub send_to_all_neighbors :
    Dict Text Neighbor → Bytes → ℕ → Option ℕ → Messaging → Messaging
unfolding send_to_mac is_active
send_to_all_neighbors [] payload now since m = m
send_to_all_neighbors ((mac, n) ∷ rest) payload now since m =
    send_to_all_neighbors rest payload now since
      (if is_active now since n then send_to_mac mac payload m else m)

unfoldable pub on_app_message : FrameSchema → Messaging → Messaging
on_app_message frame m =
    if m.has_callback
    then record m { delivered = m.delivered ++ (frame.src_mac, frame.payload) ∷ [] }
    else m
