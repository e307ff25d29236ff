-- ===== src/Examples/Delivery.antt =====
-- A file of one chunk, from the announcement to the last acknowledgement.
use link_chat.Transfer.Receiver.Meta.{
  meta_fields, meta_numbers, check_meta, finish_empty, new_ctx, place_file,
}
use link_chat.Text.Utf8.{encode}
use link_chat.Transfer.{chunk_payload, get_file_fin_frame, get_frame, read_chunk}
use link_chat.Transfer.Sender.{ack_ctx, settle, ack_number, named_ctx}
use link_chat.Transfer.Receiver.Data.{
  advance, after_write, data_target, finish_file, int_field, mark_received, on_chunk, split_blank,
  store_chunk, tell_progress,
}
use link_chat.Transfer.Window.{
  complete, give_up, mark_inflight, refill_loop, refill_window, retransfer_expired, retransfer_loop,
  send_chunk, send_next,
}
use link_chat.Payload.{
  kv_bytes, parse_payload, join_lines, kv_line, kv_text, parse_line, parse_lines,
}
use link_chat.Text.Decimal.{format, int}
use link_chat.Dict.{keys, put, pop}
use link_chat.Text.Lines.{splitlines, split_eq}
use link_chat.Text.{is_break, is_space, lower}
use link_chat.Text.Strip.{strip}
use link_chat.Transfer.Paths.{
  ends_slash, has_dots, join_slash, norm_loop, parts, split_slash, starts_with,
}
use link_chat.Transfer.Events.{emit_error, emit_finished, emit_progress, emit_started}
use link_chat.Transfer.Receiver.Store.{replace_file, write_at, write_file}
use link_chat.Transfer.Receiver.{refuse, send_ack, send_fin}
use link_chat.Text.Utf8.{decode}
use link_chat.Prelude.{
  get_elem?, ◌≡◌, refl, true, false, Option, none, some, [], arith, Result, ok, err,
}
use link_chat.Prelude.Int.{◌+ℤ◌, leb_ℤ, negsuc, pos}
use link_chat.Dict.{keys, Dict, get}
use link_chat.Text.{Text, codes}
use link_chat.Text.Equality.{text_eq, text_key}
use link_chat.Frame.{FrameSchema, MessageType}
use link_chat.Payload.Fields.{is_plain-IsKey}
use link_chat.Transfer.{get_data_chunk, FileSendCtx, get_meta_frame}
use link_chat.Transfer.Paths.{ensure_inside_base_dir, normpath, join_path, sanitize_relative_path}
use link_chat.Transfer.Window.{Tx, pump_ctx}
use link_chat.Transfer.Sender.{start_ctx, basename, on_ack}
use link_chat.Transfer.Receiver.{Rx}
use link_chat.Transfer.Receiver.Data.{has_index, on_data}
use link_chat.Transfer.Receiver.Meta.{dest_path, on_meta, meta_rel}
use link_chat.Transfer.Receiver.Announced.{sent_fields, IsAnnounceable}
use link_chat.Transfer.Session.{Session, Step, Reach, only}
use link_chat.Transfer.Session.Delivered.{announced, reach-delivered}
use link_chat.Examples.Arrivals.{host, node, original}
use link_chat.Examples.Whole.{idle, same_name, named, hashed}

abbrev ctx : FileSendCtx
ctx = record {
  file_id = codes "h-2cf2";
  dst_mac = codes "02:42:ac:11:00:03";
  path = codes "/tmp/h";
  size = 5;
  hash_sha256_hex = codes "2cf2";
  chunk_size = 8;
  total_chunks = 1;
  window_size = 16;
  timeout_s = 600;
  max_retries = 10;
  next_to_send = 0;
  last_acked = negsuc 0;
  inflight = [];
  acked = [];
  finished = false;
  meta_acked = false;
  meta_sent_ts = 0;
}

started : start_ctx host.sha256_hex 8 (codes "/tmp/h") (codes "02:42:ac:11:00:03") original ≡ ok ctx
unfolding start_ctx has_index
started = refl

announceable : IsAnnounceable ctx (basename (codes "/tmp/h")) none
announceable = record {
  id_word = (is_plain-IsKey (codes "h-2cf2") refl).word;
  name_word = rw same_name (is_plain-IsKey (codes "h") refl).word;
  hash_word = (is_plain-IsKey (codes "2cf2") refl).word;
  rel_word = λ p e. absurd (cc e);
}

inside :
    ensure_inside_base_dir host.realpath host.base_dir
      (dest_path host (sent_fields ctx (basename (codes "/tmp/h")) none))
    ≡ true
unfolding ensure_inside_base_dir dest_path meta_rel normpath join_path sanitize_relative_path
    text_eq basename has_index
inside = refl

abbrev from_ok : {A : Type 0} → A → Result A → A
from_ok a (ok b) = b
from_ok a (err e) = a

abbrev from_some : {A : Type 0} → A → Option A → A
from_some a (some b) = b
from_some a none = a

-- The announcement, a round of the pump, the chunk, the second acknowledgement.
meta_frame : FrameSchema
meta_frame = (get_meta_frame node 0 ctx (basename (codes "/tmp/h")) none).0

rx1 : Rx
rx1 = from_ok idle (on_meta host meta_frame idle)

tx1 : Tx
tx1 = announced node 0 ctx (basename (codes "/tmp/h")) none

tx2 : Tx
tx2 = pump_ctx node original (λ i. 20) 10 tx1

data_frame : FrameSchema
data_frame = from_some meta_frame (get_elem? tx2.outgoing 1)

rx2 : Rx
rx2 = from_ok idle (on_data host data_frame rx1)

ack_frame : FrameSchema
ack_frame = from_some meta_frame (get_elem? rx2.outgoing 1)

ctxs : Dict Text FileSendCtx
ctxs = from_ok [] (on_ack ack_frame (only tx2.ctx))

ctx3 : FileSendCtx
ctx3 = from_some ctx (get tx2.ctx.file_id ctxs)

last : Session
last = record { tx = record tx2 { ctx = ctx3 }; rx = rx2 }

computed :
    (on_meta host meta_frame idle ≡ ok rx1)
    × (get_elem? tx2.outgoing 1 ≡ some data_frame)
    × (data_frame.header.message_type ≡ MessageType.file_data)
    × (on_data host data_frame rx1 ≡ ok rx2)
    × (get_elem? rx2.outgoing 1 ≡ some ack_frame)
    × (ack_frame.header.message_type ≡ MessageType.ack)
    × (on_ack ack_frame (only tx2.ctx) ≡ ok ctxs)
    × (get tx2.ctx.file_id ctxs ≡ some ctx3)
    × (leb_ℤ (pos last.tx.ctx.total_chunks) (last.tx.ctx.last_acked +ℤ pos 1) ≡ true)
unfolding rx2 rx1 meta_frame ack_frame ctxs ctx3 last data_frame tx2 tx1 on_meta decode
    get_meta_frame basename has_index pump_ctx on_data get_data_chunk on_ack kv_bytes format get
    parse_payload splitlines is_break split_eq put text_eq strip is_space meta_fields meta_numbers
    int ensure_inside_base_dir normpath join_path pop join_lines kv_line kv_text parse_line
    parse_lines encode lower emit_error emit_finished emit_progress emit_started ends_slash has_dots
    join_slash norm_loop parts sanitize_relative_path split_slash starts_with advance after_write
    data_target finish_file int_field mark_received on_chunk split_blank store_chunk tell_progress
    check_meta dest_path finish_empty meta_rel new_ctx place_file replace_file write_at write_file
    refuse send_ack send_fin complete give_up mark_inflight refill_loop refill_window
    retransfer_expired retransfer_loop send_chunk send_next chunk_payload get_file_fin_frame
    get_frame read_chunk ack_ctx settle ack_number named_ctx keys
computed = (refl, refl, refl, refl, refl, refl, refl, refl, refl)

going : tx1.ctx.finished ≡ false
unfolding tx1
going = refl

session1 : Session
session1 = record { tx = tx1; rx = rx1 }

one_round : Step node host original session1 (record { tx = tx2; rx = rx1 })
unfolding tx2 session1
one_round = Step.pump 10 (λ i. 20) going

reached : Reach node host original session1 last
unfolding last session1
reached =
    Reach.later
      (Reach.later (Reach.later Reach.start one_round)
        (Step.data_arrives 1 data_frame rx2 computed.1 computed.2 computed.3))
      (Step.ack_arrives 1 ack_frame ctxs ctx3 computed.4 computed.5 computed.6 computed.7)

reach-delivered_example :
    last.rx.files (dest_path host (sent_fields ctx (basename (codes "/tmp/h")) none))
    ≡ some original
unfolding session1 tx1 meta_frame
reach-delivered_example =
    reach-delivered host node 0 8 (codes "/tmp/h") (codes "02:42:ac:11:00:03") original ctx none
      idle rx1 last started announceable (omega arith) named hashed inside refl computed.0 reached
      computed.8
