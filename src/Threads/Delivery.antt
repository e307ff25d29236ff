-- ===== src/Threads/Delivery.antt =====
-- A frame's way from one node's queue to another's.
use link_chat.Security.Seal.{rechecked_lem, rechecked, accept-protect, restored}
use link_chat.Prelude.{
  subst, sym, ap, ◌∙◌, ℕ, ◌^◌, ◌≤◌, length, ◌≡◌, refl, ◌≢◌, some, List, [], ◌∷◌, ◌++◌, arith, ok,
}
use link_chat.Text.{AreBytes, Bytes}
use link_chat.Frame.{FrameSchema}
use link_chat.Frame.Codec.{decode_ethernet_frame}
use link_chat.Frame.RoundTrip.{
  IsWireable, wire, received, decode-create, wire_some, received_checksum,
}
use link_chat.Security.{Hmac}
use link_chat.Security.Manager.{protect_outgoing, accept_incoming}
use link_chat.Threads.{Queues, take_frame, receiver_round, send_bytes, sender_round, sender_step}

ok_inj : {f g : FrameSchema} → ok f ≡ ok g → f ≡ g
ok_inj e = cc e

module _ (h : Hmac) (psk : Bytes) where
  sent :
      (nonce : Bytes) (f g : FrameSchema) (w : IsWireable g)
      → protect_outgoing h psk nonce f ≡ ok g
      → send_bytes h psk nonce f ≡ ok (wire g w)
  unfolding send_bytes
  sent nonce f g w e = ground (arith, e, (decode-create g w []).0)

  sender_round-sent :
      (nonce : Bytes) (f : FrameSchema) (rest : List FrameSchema) (bytes : Bytes) (q : Queues)
      → q.outgoing ≡ f ∷ rest
      → send_bytes h psk nonce f ≡ ok bytes
      → sender_round h psk nonce q ≡ record q { outgoing = rest; wire = q.wire ++ bytes ∷ [] }
  unfolding sender_round sender_step
  sender_round-sent nonce f rest bytes q o e = ground (arith, o, e)

  receiver_round-taken :
      (bytes : Bytes) (f clear : FrameSchema) (q : Queues)
      → decode_ethernet_frame bytes ≡ ok f
      → bytes ≢ []
      → accept_incoming h psk f ≡ ok (some clear)
      → receiver_round h psk bytes q ≡ record q { incoming = q.incoming ++ clear ∷ [] }
  unfolding receiver_round take_frame
  receiver_round-taken [] f clear q d n e = absurd (n refl)
  receiver_round-taken (b ∷ bs) f clear q d n e = ground (arith, d, e)

  some_bytes : (bytes pad : Bytes) → bytes ≢ [] → bytes ++ pad ≢ []
  some_bytes [] pad n e = n refl
  some_bytes (b ∷ bs) pad n e = cc e

  -- A frame that the sender's queue holds first goes out as one packet, and the receiver of that
  -- packet, with the same key and whatever padding behind it, puts the frame with its payload into
  -- its queue. What the frame becomes under protection has to fit the wire format.
  pub receiver_round-sender_round :
      (nonce pad : Bytes) (f : FrameSchema) (rest : List FrameSchema) (q r : Queues)
      → length nonce ≡ 12
      → AreBytes f.payload
      → length f.payload ≤ 2 ^ 37
      → q.outgoing ≡ f ∷ rest
      → ((g : FrameSchema) → protect_outgoing h psk nonce f ≡ ok g → IsWireable g)
      → (bytes : Bytes) × (checksum : ℕ) × (sender_round h psk nonce q
          ≡ record q { outgoing = rest; wire = q.wire ++ bytes ∷ [] })
        × (receiver_round h psk (bytes ++ pad) r
            ≡ record r { incoming = r.incoming ++ restored h psk f checksum ∷ [] })
  receiver_round-sender_round nonce pad f rest q r ln bytes fits o wireable =
      delivered (received_checksum g w)
    where
      g : FrameSchema
      g = (accept-protect h psk nonce f 0 ln bytes fits).0

      protected : protect_outgoing h psk nonce f ≡ ok g
      protected = (accept-protect h psk nonce f 0 ln bytes fits).1

      w : IsWireable g
      w = wireable g protected

      accepted :
          (c : ℕ) → accept_incoming h psk (rechecked h psk g c) ≡ ok (some (restored h psk f c))
      accepted c =
          let other = accept-protect h psk nonce f c ln bytes fits in
          subst
            (λ g'. accept_incoming h psk (rechecked h psk g' c) ≡ ok (some (restored h psk f c)))
            (ok_inj (sym other.1 ∙ protected)) other.2

      delivered :
          ((c : ℕ) × (received g w ≡ record g { header = record (g.header) { checksum = c } }))
          → (bytes : Bytes) × (checksum : ℕ) × (sender_round h psk nonce q
              ≡ record q { outgoing = rest; wire = q.wire ++ bytes ∷ [] })
            × (receiver_round h psk (bytes ++ pad) r
                ≡ record r { incoming = r.incoming ++ restored h psk f checksum ∷ [] })
      delivered (c, e) = (
        wire g w,
        c,
        sender_round-sent nonce f rest (wire g w) q o (sent nonce f g w protected),
        receiver_round-taken (wire g w ++ pad) (rechecked h psk g c) (restored h psk f c) r
            ((decode-create g w pad).1 ∙ ap ok (e ∙ sym (rechecked_lem h psk g c)))
            (some_bytes (wire g w) pad (wire_some g w)) (accepted c),
      )
