-- ===== src/Frame/Codec.antt =====
-- `create_ethernet_frame` of src/core/helpers/frame_creator.py and `decode_ethernet_frame` of
-- src/core/helpers/frame_decoder.py.
use link_chat.Prelude.{
  ℕ, ◌%◌, ◌^◌, ◌++◌, ◌==◌, take, drop, value_error, Result, ok, ◌>>=◌, ◌>>◌, guard,
}
use link_chat.Text.{Bytes}
use link_chat.Frame.{
  value, message_type, HeaderSchema, FrameSchema, ether_header_len, get_len_with_checksum,
}
use link_chat.Frame.Struct.{pack_u16, pack_6s, pack_hii, pack_hiii, unpack_ether, unpack_header}
use link_chat.Frame.Mac.{mac_bytes, mac_text}
use link_chat.Frame.Crc.{crc32}

unfoldable pub pack_header_without_checksum : HeaderSchema → Result Bytes
pack_header_without_checksum h = pack_hii (value h.message_type) h.sequence h.payload_len

unfoldable pub pack_header_with_checksum : HeaderSchema → ℕ → Result Bytes
pack_header_with_checksum h checksum =
    pack_hiii (value h.message_type) h.sequence h.payload_len checksum

-- `zlib.crc32(bs) & 0xFFFFFFFF`
unfoldable pub checksum_of : Bytes → ℕ
checksum_of bs = crc32 bs % 2 ^ 32

unfoldable pub pack_ether : FrameSchema → Result Bytes
pack_ether f = do
  dst ← mac_bytes f.dst_mac
  src ← mac_bytes f.src_mac
  e ← pack_u16 f.ethertype
  ok (pack_6s dst ++ pack_6s src ++ e)

unfoldable pub create_ethernet_frame : FrameSchema → Result Bytes
unfolding pack_header_without_checksum pack_header_with_checksum
create_ethernet_frame f = do
  header_wo ← pack_header_without_checksum f.header
  header_w ← pack_header_with_checksum f.header (checksum_of (header_wo ++ f.payload))
  ether_header ← pack_ether f
  ok (ether_header ++ (header_w ++ f.payload))

-- What is left to do once both headers are read.
unfoldable pub check_frame : Bytes × Bytes × ℕ → ℕ × ℕ × ℕ × ℕ → Bytes → Result FrameSchema
check_frame (dst, src, ethertype) (t, sequence, payload_len, checksum) payload = do
  header_wo ← pack_hii t sequence payload_len
  guard (checksum_of (header_wo ++ payload) == checksum) value_error
  mt ← message_type t
  ok (record {
    dst_mac = mac_text dst;
    src_mac = mac_text src;
    ethertype = ethertype;
    header = record {
      message_type = mt;
      sequence = sequence;
      payload_len = payload_len;
      checksum = checksum;
    };
    payload = payload;
  })

-- The slices of the buffer: the header behind the Ethernet header, and the payload behind that.
abbrev pub header_slice : Bytes → Bytes
header_slice bs = take get_len_with_checksum (drop ether_header_len bs)

abbrev pub payload_slice : ℕ → Bytes → Bytes
payload_slice n bs = take n (drop get_len_with_checksum (drop ether_header_len bs))

unfoldable pub decode_ethernet_frame : Bytes → Result FrameSchema
decode_ethernet_frame bs = do
  ether ← unpack_ether (take ether_header_len bs)
  (t, s, l, c) ← unpack_header (header_slice bs)
  check_frame ether (t, s, l, c) (payload_slice l bs)
