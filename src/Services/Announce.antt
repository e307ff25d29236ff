-- ===== src/Services/Announce.antt =====
-- What one node announces, another one learns.
use link_chat.Prelude.{
  sym, [], ◌∷◌, ℕ, ◌+◌, ◌≡◌, refl, ap, ◌∙◌, inl, inr, Option, none, some, ◌++◌, arith,
  if◌then◌else◌, Bool-cases, All, ok,
}
use link_chat.Dict.{get, put, get-put_self}
use link_chat.Text.{Text}
use link_chat.Text.Equality.{text_key, text_eq, text_eq_sound}
use link_chat.Text.Utf8.{encode, decode, decode-encode, IsScalar}
use link_chat.Text.Strip.{strip_id, IsStripped}
use link_chat.Frame.{MessageType, FrameSchema}
use link_chat.Transfer.Paths.{starts_with}
use link_chat.Services.Discovery.{
  announce, on_discover_request, Discovery, Neighbor, alias_prefix, parse_alias, seen_entry,
  on_discover_reply,
}

parse_alias-prefix : (alias : Text) → IsStripped alias → parse_alias (alias_prefix ++ alias) ≡ alias
unfolding parse_alias starts_with
parse_alias-prefix alias h = strip_id alias h

seen :
    (entry : Option Neighbor) (alias : Text) (now : ℕ)
    → seen_entry entry alias now ≡ record { alias = alias; last_seen = now }
unfolding seen_entry
seen none alias now = refl
seen (some entry) alias now = elim (Bool-cases (text_eq entry.alias alias)) [
  | inl e ↦
      rw e (
        ap (λ (a : Text). record { alias = a; last_seen = now })
          (text_eq_sound entry.alias alias e))
  | inr e ↦ rw e refl
]

on_discover_reply_step :
    (frame : FrameSchema) (now : ℕ) (d : Discovery) (text : Text)
    → decode frame.payload ≡ ok text
    → on_discover_reply frame now d
      ≡ ok (record d {
        neighbors =
            put frame.src_mac
              (seen_entry (get frame.src_mac d.neighbors) (parse_alias text) now)
              d.neighbors;
        notices = if d.has_callback then d.notices + 1 else d.notices;
      })
unfolding on_discover_reply
on_discover_reply_step frame now d text e = ground (arith, e)

-- The state after such a reply.
pub on_discover_reply-entry :
    (frame : FrameSchema) (alias : Text) (now : ℕ) (d : Discovery)
    → frame.payload ≡ encode (alias_prefix ++ alias)
    → IsStripped alias
    → All IsScalar alias
    → on_discover_reply frame now d
      ≡ ok (record d {
        neighbors = put frame.src_mac (record { alias = alias; last_seen = now }) d.neighbors;
        notices = if d.has_callback then d.notices + 1 else d.notices;
      })
on_discover_reply-entry frame alias now d e h u =
    on_discover_reply_step frame now d (alias_prefix ++ alias)
      (ap decode e ∙ decode-encode (alias_prefix ++ alias) scalars)
    ∙ ap
        (λ n. ok (record d {
          neighbors = put frame.src_mac n d.neighbors;
          notices = if d.has_callback then d.notices + 1 else d.notices;
        }))
        (ap (λ a. seen_entry (get frame.src_mac d.neighbors) a now) (parse_alias-prefix alias h)
          ∙ seen (get frame.src_mac d.neighbors) alias now)
  where
    scalars : All IsScalar (alias_prefix ++ alias)
    scalars = (
      inl (omega arith),
      (
        inl (omega arith),
        (inl (omega arith), (inl (omega arith), (inl (omega arith), (inl (omega arith), u)))),
      ),
    )

-- The frame that `_on_discover_request` puts into the queue, and what it holds.
announced :
    (request : FrameSchema) (d : Discovery)
    → (reply : FrameSchema) × ((on_discover_request request d).outgoing ≡ d.outgoing ++ reply ∷ [])
      × (reply.payload ≡ encode (alias_prefix ++ d.alias))
      × (reply.src_mac ≡ d.node.src_mac)
      × (reply.dst_mac ≡ request.src_mac)
      × (reply.header.message_type ≡ MessageType.discover_reply)
unfolding on_discover_request announce
announced request d = (_, refl, refl, refl, refl, refl)

-- A node whose alias has no white space at its ends answers a discovery request with one frame,
-- addressed to the node that asked. When that node handles it, it has the other in its table of
-- neighbors, under the other's address, with the other's alias and the time of the reply, whatever
-- stood there before.
pub on_discover_reply-on_discover_request :
    (request : FrameSchema) (there here : Discovery) (now : ℕ)
    → IsStripped there.alias
    → All IsScalar there.alias
    → (reply : FrameSchema) × (here' : Discovery) × ((on_discover_request request there).outgoing
        ≡ there.outgoing ++ reply ∷ [])
      × (reply.dst_mac ≡ request.src_mac)
      × (reply.header.message_type ≡ MessageType.discover_reply)
      × (on_discover_reply reply now here ≡ ok here')
      × (get there.node.src_mac here'.neighbors
          ≡ some (record { alias = there.alias; last_seen = now }))
on_discover_reply-on_discover_request request there here now h u =
    let (reply, queued, payload, src, dst, kind) = announced request there in
    (
      reply,
      _,
      queued,
      dst,
      kind,
      on_discover_reply-entry reply there.alias now here payload h u,
      ap
            (λ mac.
              get mac (
                put reply.src_mac (record { alias = there.alias; last_seen = now }) here.neighbors))
            (sym src)
          ∙ get-put_self reply.src_mac _ here.neighbors,
    )
