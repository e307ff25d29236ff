-- ===== src/Examples/Sealing.antt =====
-- The security layer over a digest that is no digest: 32 zeros.
use link_chat.Text.Equality.{text_eq}
use link_chat.Security.Seal.{accept-protect, restored, rechecked}
use link_chat.Security.Authentic.{accepted-protected}
use link_chat.Frame.{MessageType, FrameSchema}
use link_chat.Security.Manager.{
  xor_bytes, nonce_of, open_sealed, should_protect, with_payload, protect_outgoing, accept_incoming,
}
use link_chat.Frame.Struct.{pack_u32}
use link_chat.Prelude.{ℕ, ◌≡◌, refl, sym, ◌∙◌, subst, some, [], ◌∷◌, ◌++◌, arith, replicate, ok}
use link_chat.Frame.Mac.{mac_text}
use link_chat.Frame.RoundTrip.{IsWireable}
use link_chat.Threads.{Queues, sender_round, receiver_round}
use link_chat.Threads.Delivery.{receiver_round-sender_round}
use link_chat.Text.{codes, Bytes}
use link_chat.Security.{aad_for, keystream, hkdf_sha256, Hmac}

zeros : ℕ → Bytes
zeros n = replicate n 0

abbrev blank : Hmac
blank = record {
  digest = λ key msg. replicate 32 0;
  digest_len = λ key msg. refl;
  digest_bytes = λ key msg. omega arith;
}

abbrev secret : FrameSchema
secret = record {
  dst_mac = codes "02:42:ac:11:00:03";
  src_mac = codes "02:42:ac:11:00:02";
  ethertype = 0x88b5;
  header = record {
    message_type = MessageType.app_message;
    sequence = 7;
    payload_len = 4;
    checksum = 0;
  };
  payload = codes "hola";
}

abbrev nonce : Bytes
nonce = replicate 12 5

-- With a stream of zeros the cipher text is the text; the tag is 16 zeros.
abbrev sealed : FrameSchema
sealed = with_payload secret (1 ∷ (nonce ++ (codes "hola" ++ replicate 16 0)))

accept-protect_example :
    (g : FrameSchema) × (protect_outgoing blank (codes "psk") nonce secret ≡ ok g)
    × (accept_incoming blank (codes "psk") (rechecked blank (codes "psk") g 99)
        ≡ ok (some (restored blank (codes "psk") secret 99)))
accept-protect_example =
    accept-protect blank (codes "psk") nonce secret 99 refl (omega arith) (omega arith)

accepted : accept_incoming blank (codes "psk") sealed ≡ ok (some secret)
unfolding accept_incoming should_protect open_sealed hkdf_sha256 keystream text_eq xor_bytes aad_for
    pack_u32
accepted = refl

accepted-protected_example :
    protect_outgoing blank (codes "psk") (nonce_of sealed.payload) secret
    ≡ ok (with_payload sealed sealed.payload)
accepted-protected_example =
    accepted-protected blank (codes "psk") sealed secret (unfold should_protect in refl)
      (omega arith) (omega arith) accepted

-- A discovery frame goes out as it is.
abbrev greeting : FrameSchema
greeting = record {
  dst_mac = codes "02:42:ac:11:00:03";
  src_mac = codes "02:42:ac:11:00:02";
  ethertype = 0x88b5;
  header = record {
    message_type = MessageType.discover_reply;
    sequence = 7;
    payload_len = 4;
    checksum = 0;
  };
  payload = codes "hola";
}

greeting-IsWireable : IsWireable greeting
unfolding mac_text
greeting-IsWireable = record {
  dst = record {
    bytes = 0x02 ∷ 0x42 ∷ 0xac ∷ 0x11 ∷ 0 ∷ 3 ∷ [];
    in_range = omega arith;
    six = refl;
    written = refl;
  };
  src = record {
    bytes = 0x02 ∷ 0x42 ∷ 0xac ∷ 0x11 ∷ 0 ∷ 2 ∷ [];
    in_range = omega arith;
    six = refl;
    written = refl;
  };
  ethertype_fits = omega arith;
  sequence_fits = omega arith;
  length_fits = omega arith;
  length_told = refl;
}

ok_inj : {f g : FrameSchema} → ok f ≡ ok g → f ≡ g
ok_inj e = cc e

plain_IsWireable :
    (g : FrameSchema) → protect_outgoing blank (codes "psk") nonce greeting ≡ ok g → IsWireable g
plain_IsWireable g e = subst IsWireable (ok_inj (sym unchanged ∙ e)) greeting-IsWireable
  where
    unchanged : protect_outgoing blank (codes "psk") nonce greeting ≡ ok greeting
    unchanged = unfold protect_outgoing should_protect in refl

abbrev before : Queues
before = record { incoming = []; outgoing = greeting ∷ []; wire = [] }

abbrev idle : Queues
idle = record { incoming = []; outgoing = []; wire = [] }

receiver_round-sender_round_example :
    (bytes : Bytes) × (checksum : ℕ) × (sender_round blank (codes "psk") nonce before
      ≡ record before { outgoing = []; wire = [] ++ bytes ∷ [] })
    × (receiver_round blank (codes "psk") (bytes ++ 0 ∷ []) idle
        ≡ record idle { incoming = [] ++ restored blank (codes "psk") greeting checksum ∷ [] })
receiver_round-sender_round_example =
    receiver_round-sender_round blank (codes "psk") nonce (0 ∷ []) greeting [] before idle refl
      (omega arith) (omega arith) refl plain_IsWireable
