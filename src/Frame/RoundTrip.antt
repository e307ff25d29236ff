-- ===== src/Frame/RoundTrip.antt =====
-- What the encoder sends, the decoder reads.
use mathlib.Core.List.{append_assoc}
use link_chat.Prelude.{
  ◌≢◌, [], ℕ, ◌^◌, ◌<◌, ◌≡◌, refl, sym, ap, ◌∙◌, ◌++◌, arith, lt→ltb, ==_refl, length, take,
  length-append, take-append, drop-append, ok,
}
use link_chat.Text.{Text, Bytes}
use link_chat.Frame.{value, value-lt, message_type-value, FrameSchema}
use link_chat.Frame.Struct.{
  u16_bytes, u32_bytes, pack_u16, pack_6s_id, pack_hii, pack_hii-ok, pack_hiii, pack_hiii-ok,
  unpack_ether, unpack_ether-pack, unpack_header, unpack_header-pack,
}
use link_chat.Frame.Mac.{mac_bytes, mac_bytes-mac_text, IsMac}
use link_chat.Frame.Codec.{
  create_ethernet_frame, decode_ethernet_frame, check_frame, checksum_of, pack_ether,
  pack_header_with_checksum, pack_header_without_checksum,
}

-- A frame that fits the wire format: addresses as the program writes them, numbers within their
-- fields, and a length field that tells the length of the payload.
pub record IsWireable (f : FrameSchema) : Type 0 where
  pub dst : IsMac f.dst_mac
  pub src : IsMac f.src_mac
  pub ethertype_fits : f.ethertype < 2 ^ 16
  pub sequence_fits : f.header.sequence < 2 ^ 32
  pub length_fits : length f.payload < 2 ^ 32
  pub length_told : f.header.payload_len ≡ length f.payload

decode_parts :
    (eth hdr rest : Bytes) {d s : Bytes} {e t q l c : ℕ}
    → length eth ≡ 14
    → length hdr ≡ 14
    → unpack_ether eth ≡ ok (d, s, e)
    → unpack_header hdr ≡ ok (t, q, l, c)
    → decode_ethernet_frame (eth ++ (hdr ++ rest))
      ≡ check_frame (d, s, e) (t, q, l, c) (take l rest)
unfolding decode_ethernet_frame
decode_parts eth hdr rest le lh he hh = rw (
  take-append 14 eth (hdr ++ rest) le,
  drop-append 14 eth (hdr ++ rest) le,
  take-append 14 hdr rest lh,
  drop-append 14 hdr rest lh,
  he,
  hh,
)

module _ (f : FrameSchema) (w : IsWireable f) where
  header_bytes : Bytes
  header_bytes =
      u16_bytes (value f.header.message_type)
      ++ u32_bytes f.header.sequence
      ++ u32_bytes f.header.payload_len

  -- The checksum that the encoder computes.
  pub frame_checksum : ℕ
  frame_checksum = checksum_of (header_bytes ++ f.payload)

  ether_part : Bytes
  ether_part = w.dst.bytes ++ w.src.bytes ++ u16_bytes f.ethertype

  header_part : Bytes
  header_part =
      u16_bytes (value f.header.message_type)
      ++ u32_bytes f.header.sequence
      ++ u32_bytes f.header.payload_len
      ++ u32_bytes frame_checksum

  -- The bytes that the encoder makes.
  pub wire : Bytes
  wire = ether_part ++ (header_part ++ f.payload)

  payload_len_fits : f.header.payload_len < 2 ^ 32
  payload_len_fits = rw w.length_told w.length_fits

  frame_checksum-lt : frame_checksum < 2 ^ 32
  unfolding frame_checksum checksum_of
  frame_checksum-lt = omega arith

  pack_header-ok :
      pack_hii (value f.header.message_type) f.header.sequence f.header.payload_len
      ≡ ok header_bytes
  unfolding header_bytes
  pack_header-ok =
      pack_hii-ok _ _ _ (value-lt f.header.message_type) w.sequence_fits payload_len_fits

  pack_full-ok :
      pack_hiii (value f.header.message_type) f.header.sequence f.header.payload_len frame_checksum
      ≡ ok header_part
  unfolding header_part
  pack_full-ok =
      pack_hiii-ok _ _ _ _ (value-lt f.header.message_type) w.sequence_fits payload_len_fits
        frame_checksum-lt

  pack_checked-ok :
      pack_hiii
        (value f.header.message_type)
        f.header.sequence
        f.header.payload_len
        (checksum_of (header_bytes ++ f.payload))
      ≡ ok header_part
  pack_checked-ok = unfold frame_checksum in pack_full-ok

  mac_ok : (m : Text) (i : IsMac m) → mac_bytes m ≡ ok i.bytes
  mac_ok m i = ap mac_bytes i.written ∙ mac_bytes-mac_text i.bytes i.in_range

  pack_ether-ok : pack_ether f ≡ ok ether_part
  unfolding pack_ether ether_part pack_u16
  pack_ether-ok = rw (
    mac_ok f.dst_mac w.dst,
    mac_ok f.src_mac w.src,
    lt→ltb _ _ w.ethertype_fits,
    pack_6s_id _ w.dst.six,
    pack_6s_id _ w.src.six,
  )

  -- The encoder accepts the frame.
  pub create-wire : create_ethernet_frame f ≡ ok wire
  unfolding create_ethernet_frame wire pack_header_with_checksum pack_header_without_checksum
  create-wire = rw (pack_header-ok, pack_checked-ok, pack_ether-ok)

  frame_checksum_lem : frame_checksum ≡ checksum_of (header_bytes ++ f.payload)
  unfolding frame_checksum
  frame_checksum_lem = refl

  -- The frame as the receiver sees it: the header carries the checksum.
  pub received : FrameSchema
  received = record f { header = record (f.header) { checksum = frame_checksum } }

  check_frame-ok :
      check_frame
        (w.dst.bytes, w.src.bytes, f.ethertype)
        (value f.header.message_type, f.header.sequence, f.header.payload_len, frame_checksum)
        f.payload
      ≡ ok received
  unfolding check_frame received
  check_frame-ok = rw (
    pack_header-ok,
    sym frame_checksum_lem,
    ==_refl frame_checksum,
    message_type-value f.header.message_type,
    sym w.dst.written,
    sym w.src.written,
  )

  length-ether_part : length ether_part ≡ 14
  unfolding ether_part u16_bytes
  length-ether_part = rw (length-append, length-append) (omega (arith, w.dst.six, w.src.six))

  length-header_part : length header_part ≡ 14
  unfolding header_part u16_bytes u32_bytes
  length-header_part = refl

  unpack-ether_part : unpack_ether ether_part ≡ ok (w.dst.bytes, w.src.bytes, f.ethertype)
  unfolding ether_part
  unpack-ether_part = unpack_ether-pack _ _ _ w.dst.six w.src.six

  unpack-header_part :
      unpack_header header_part
      ≡ ok (value f.header.message_type, f.header.sequence, f.header.payload_len, frame_checksum)
  unfolding header_part
  unpack-header_part = unpack_header-pack _ _ _ _

  pub decode-wire : (pad : Bytes) → decode_ethernet_frame (wire ++ pad) ≡ ok received
  unfolding wire
  decode-wire pad =
      ap decode_ethernet_frame (
        append_assoc ether_part (header_part ++ f.payload) pad
        ∙ ap (◌++◌ ether_part) (append_assoc header_part f.payload pad))
      ∙ decode_parts ether_part header_part (f.payload ++ pad) length-ether_part length-header_part
          unpack-ether_part unpack-header_part
      ∙ ap
          (check_frame (w.dst.bytes, w.src.bytes, f.ethertype)
            (value f.header.message_type, f.header.sequence, f.header.payload_len, frame_checksum))
          (take-append f.header.payload_len f.payload pad (sym w.length_told))
      ∙ check_frame-ok

-- The packet is not empty, and the receiver's frame differs in the checksum only.
pub wire_some : (f : FrameSchema) (w : IsWireable f) → wire f w ≢ []
unfolding wire
wire_some f w e = absurd (
    omega (
      arith,
      ap length e,
      length-append (ether_part f w) (header_part f w ++ f.payload),
      length-ether_part f w,
    ))

pub received_checksum :
    (f : FrameSchema) (w : IsWireable f)
    → (c : ℕ) × (received f w ≡ record f { header = record (f.header) { checksum = c } })
unfolding received
received_checksum f w = (frame_checksum f w, refl)

-- A frame that fits the wire format is accepted by `create_ethernet_frame`, and the decoder reads
-- it back from the bytes made, whatever padding follows them: every field is the frame's, but for
-- the checksum, which is the one that the encoder computed.
pub decode-create :
    (f : FrameSchema) (w : IsWireable f) (pad : Bytes)
    → (create_ethernet_frame f ≡ ok (wire f w))
      × (decode_ethernet_frame (wire f w ++ pad) ≡ ok (received f w))
decode-create f w pad = (create-wire f w, decode-wire f w pad)
