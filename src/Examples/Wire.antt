-- ===== src/Examples/Wire.antt =====
-- Frames of two nodes, encoded and decoded.
use link_chat.Prelude.{◌≡◌, refl, [], ◌∷◌, ◌++◌, arith, ok}
use link_chat.Text.{codes}
use link_chat.Frame.{MessageType, FrameSchema}
use link_chat.Frame.Mac.{mac_text}
use link_chat.Frame.Codec.{create_ethernet_frame, decode_ethernet_frame}
use link_chat.Frame.RoundTrip.{IsWireable, wire, received, decode-create}

abbrev hello : FrameSchema
hello = record {
  dst_mac = codes "02:42:ac:11:00:03";
  src_mac = codes "02:42:ac:11:00:02";
  ethertype = 0x88b5;
  header = record {
    message_type = MessageType.app_message;
    sequence = 7;
    payload_len = 4;
    checksum = 0;
  };
  payload = codes "hola";
}

hello-IsWireable : IsWireable hello
unfolding mac_text
hello-IsWireable = record {
  dst = record {
    bytes = 0x02 ∷ 0x42 ∷ 0xac ∷ 0x11 ∷ 0 ∷ 3 ∷ [];
    in_range = omega arith;
    six = refl;
    written = refl;
  };
  src = record {
    bytes = 0x02 ∷ 0x42 ∷ 0xac ∷ 0x11 ∷ 0 ∷ 2 ∷ [];
    in_range = omega arith;
    six = refl;
    written = refl;
  };
  ethertype_fits = omega arith;
  sequence_fits = omega arith;
  length_fits = omega arith;
  length_told = refl;
}

-- The frame travels with two bytes of padding behind it.
decode-create_example :
    (create_ethernet_frame hello ≡ ok (wire hello hello-IsWireable))
    × (decode_ethernet_frame (wire hello hello-IsWireable ++ (0 ∷ 0 ∷ []))
        ≡ ok (received hello hello-IsWireable))
decode-create_example = decode-create hello hello-IsWireable (0 ∷ 0 ∷ [])
