-- ===== src/Examples/Answers.antt =====
-- Acknowledgements, announcements, refusals and the end of a transfer.
use link_chat.Prelude.{
  ℕ, ◌≡◌, refl, true, false, none, some, [], ◌∷◌, ◌++◌, arith, if◌then◌else◌, ok,
}
use link_chat.Prelude.Int.{pos, ltb_ℤ, leb_ℤ}
use link_chat.Dict.{get}
use link_chat.Text.{codes, is_break, is_space}
use link_chat.Text.Equality.{text_eq, text_key, nat_key}
use link_chat.Frame.{MessageType, FrameSchema}
use link_chat.Payload.{kv_text, parse_payload}
use link_chat.Payload.RoundTrip.{IsClean, of_pairs, parse_payload-kv_text}
use link_chat.Transfer.{FileSendCtx, receiver_get_file_fin_frame}
use link_chat.Transfer.Paths.{
  ensure_inside_base_dir, normpath, join_path, starts_with, sanitize_relative_path,
}
use link_chat.Transfer.Window.Invariant.{IsWindow}
use link_chat.Transfer.Window.Pumping.{pump_ctx-IsWindow}
use link_chat.Transfer.Window.{pump_ctx, Tx, has_room, refill_window}
use link_chat.Transfer.Window.Refill.{refill_window-full}
use link_chat.Transfer.Sender.{ack_ctx}
use link_chat.Transfer.Sender.Acks.{ack_ctx-inflight}
use link_chat.Transfer.Receiver.{queue, send_fin}
use link_chat.Transfer.Receiver.Meta.{MetaFields, meta_rel, dest_path, check_meta}
use link_chat.Transfer.Receiver.Fin.{send_fin-receiver_get_file_fin_frame}
use link_chat.Transfer.Receiver.Safety.{Kept, check_meta-Kept}
use link_chat.Services.Discovery.{on_discover_request, Discovery, on_discover_reply}
use link_chat.Services.Announce.{on_discover_reply-on_discover_request}
use link_chat.Examples.Arrivals.{host, node, send_ctx, receiver, original}

-- Two chunks are in flight, and the first has arrived.
abbrev flying : FileSendCtx
flying = record send_ctx {
  inflight = (0, (100, 0)) ∷ (1, (100, 0)) ∷ [];
  next_to_send = 2;
  meta_acked = true;
}

ack_ctx-inflight_example :
    ((j : ℕ)
      → get j (ack_ctx (pos 1) flying).inflight
        ≡ (if ltb_ℤ (pos j) (pos 1) then none else get j flying.inflight))
    × (leb_ℤ flying.last_acked (ack_ctx (pos 1) flying).last_acked ≡ true)
ack_ctx-inflight_example = ack_ctx-inflight (pos 1) flying

abbrev sender : Tx
sender = record { seq = 0; outgoing = []; ctx = flying }

refill_window-full_example :
    has_room node original (λ i. 200) (refill_window node original (λ i. 200) sender) ≡ false
refill_window-full_example = refill_window-full node original (λ i. 200) sender

flying-IsWindow : IsWindow flying
unfolding get
flying-IsWindow = record {
  fits = omega arith;
  in_range = omega arith;
  behind = λ j e h. ground (arith, h);
}

-- Both chunks are overdue at this time.
pump_ctx-IsWindow_example : IsWindow (pump_ctx node original (λ i. 900) 900 sender).ctx
pump_ctx-IsWindow_example = pump_ctx-IsWindow node original (λ i. 900) 900 sender flying-IsWindow

send_fin-receiver_get_file_fin_frame_example :
    send_fin host (codes "x-9") (codes "02:42:ac:11:00:02") (codes "error") (codes "bad") receiver
    ≡ queue receiver (
        receiver_get_file_fin_frame host.node receiver.seq
          (codes "02:42:ac:11:00:02")
          (codes "x-9")
          (codes "error")
          (codes "bad"))
send_fin-receiver_get_file_fin_frame_example =
    send_fin-receiver_get_file_fin_frame host (codes "x-9") (codes "02:42:ac:11:00:02")
      (codes "error") (codes "bad") receiver

pairs-IsClean : IsClean (codes "status", codes "ok")
unfolding is_break is_space
pairs-IsClean = record {
  key_line = (refl, (refl, (refl, (refl, (refl, (refl, tt))))));
  value_line = (refl, (refl, tt));
  key_stripped = record { front = refl; back = refl };
  value_stripped = record { front = refl; back = refl };
  key_plain = (refl, (refl, (refl, (refl, (refl, (refl, tt))))));
}

parse_payload-kv_text_example :
    parse_payload (kv_text ((codes "status", codes "ok") ∷ []))
    ≡ of_pairs ((codes "status", codes "ok") ∷ []) []
parse_payload-kv_text_example =
    parse_payload-kv_text (codes "status", codes "ok") [] (pairs-IsClean, tt)

abbrev escape : MetaFields
escape = record {
  file_id = codes "e-1";
  name = codes "../e";
  size_text = codes "1";
  sha256 = codes "00";
  chunk_text = codes "1";
  total_text = codes "1";
  path = none;
  rel = none;
}

abbrev some_frame : FrameSchema
some_frame = record {
  dst_mac = codes "02:42:ac:11:00:03";
  src_mac = codes "02:42:ac:11:00:02";
  ethertype = 0x88b5;
  header = record {
    message_type = MessageType.discover_reply;
    sequence = 1;
    payload_len = 8;
    checksum = 0;
  };
  payload = codes "alias=Bo";
}

escape_outside : ensure_inside_base_dir host.realpath host.base_dir (dest_path host escape) ≡ false
unfolding ensure_inside_base_dir dest_path normpath join_path starts_with sanitize_relative_path
    text_eq meta_rel
escape_outside = refl

check_meta-Kept_example : Kept receiver (check_meta host escape some_frame receiver)
check_meta-Kept_example = check_meta-Kept host escape some_frame receiver escape_outside

abbrev discovery : Discovery
discovery = record {
  attached = true;
  objects = 0;
  interval = 5000;
  handlers = [];
  tasks = [];
  node = node;
  alias = codes "Ana";
  neighbors = [];
  has_callback = true;
  notices = 0;
  seq = 0;
  outgoing = [];
}

on_discover_reply-on_discover_request_example :
    (reply : FrameSchema) × (here' : Discovery) × ((on_discover_request some_frame
        discovery).outgoing
      ≡ [] ++ reply ∷ [])
    × (reply.dst_mac ≡ some_frame.src_mac)
    × (reply.header.message_type ≡ MessageType.discover_reply)
    × (on_discover_reply reply 7000 discovery ≡ ok here')
    × (get discovery.node.src_mac here'.neighbors
        ≡ some (record { alias = codes "Ana"; last_seen = 7000 }))
on_discover_reply-on_discover_request_example =
    on_discover_reply-on_discover_request some_frame discovery discovery 7000
      (unfold is_space in record { front = refl; back = refl }) (omega arith)
