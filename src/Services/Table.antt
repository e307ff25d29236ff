-- ===== src/Services/Table.antt =====
-- The table of neighbors of src/discover/discover.py over a run of the node.
use link_chat.Services.Announce.{on_discover_reply-entry}
use link_chat.Prelude.{
  refl, ap, ◌∙◌, ◌+◌, ℕ, ◌≡◌, Option, some, List, [], ◌∷◌, ◌++◌, if◌then◌else◌, All, Result, ok,
  ◌>>=◌,
}
use link_chat.Dict.{get-put, put, get}
use link_chat.Text.{Text}
use link_chat.Text.Equality.{text_eq, text_key}
use link_chat.Text.Utf8.{encode, IsScalar}
use link_chat.Text.Strip.{IsStripped}
use link_chat.Frame.{FrameSchema}
use link_chat.Services.Discovery.{
  Neighbor, Discovery, alias_prefix, timer_cb_discover, on_discover_request, on_discover_reply,
}

-- What the handlers are called for: a reply that announces an alias, a request, the timer.
pub data Happening : Type 0 where
  reply : FrameSchema → Text → ℕ → Happening
  request : FrameSchema → Happening
  timer : Happening

-- The detailed run.
abbrev pub happen : List Happening → Discovery → Result Discovery
happen [] d = ok d
happen (Happening.reply frame alias now ∷ rest) d = do
  d' ← on_discover_reply frame now d
  happen rest d'
happen (Happening.request frame ∷ rest) d = happen rest (on_discover_request frame d)
happen (Happening.timer ∷ rest) d = happen rest (timer_cb_discover d)

-- The abstract table: the last announcement of each address.
abbrev pub NeighborView : Type 0
NeighborView = Text → Option Neighbor

abbrev pub observe : List Happening → NeighborView → NeighborView
observe [] view = view
observe (Happening.reply frame alias now ∷ rest) view = observe rest (λ mac.
    if text_eq frame.src_mac mac
    then some (record { alias = alias; last_seen = now })
    else view mac)
observe (Happening.request frame ∷ rest) view = observe rest view
observe (Happening.timer ∷ rest) view = observe rest view

abbrev pub view_of : Discovery → NeighborView
view_of d mac = get mac d.neighbors

-- A reply has the payload of the announcement.
abbrev pub Announces : Happening → Type 0
Announces (Happening.reply frame alias now) =
    (frame.payload ≡ encode (alias_prefix ++ alias)) × IsStripped alias × All IsScalar alias
Announces (Happening.request frame) = Unit
Announces Happening.timer = Unit

request_neighbors :
    (mac : Text) (frame : FrameSchema) (d : Discovery)
    → get mac (on_discover_request frame d).neighbors ≡ get mac d.neighbors
unfolding on_discover_request
request_neighbors mac frame d = refl

timer_neighbors :
    (mac : Text) (d : Discovery) → get mac (timer_cb_discover d).neighbors ≡ get mac d.neighbors
unfolding timer_cb_discover
timer_neighbors mac d = refl

-- Whatever replies, requests and timer calls a node handles, in any order: when every reply has the
-- payload of an announcement whose alias has no white space at its ends, no handler raises, and the
-- table of neighbors is the abstract one, in which each reply replaces the entry of its sender and
-- nothing else changes, if the two agreed at the start.
pub happen-observe :
    (hs : List Happening) (d : Discovery) (view : NeighborView)
    → ((mac : Text) → view_of d mac ≡ view mac)
    → All Announces hs
    → (d' : Discovery) × (happen hs d ≡ ok d')
      × ((mac : Text) → view_of d' mac ≡ observe hs view mac)
happen-observe [] d view same h = (d, refl, same)
happen-observe (Happening.reply frame alias now ∷ rest) d view same h =
    let entry : Neighbor = record { alias = alias; last_seen = now } in
    let (d', runs, agrees) =
      happen-observe rest
        (record d {
          neighbors = put frame.src_mac entry d.neighbors;
          notices = if d.has_callback then d.notices + 1 else d.notices;
        })
        (λ mac. if text_eq frame.src_mac mac then some entry else view mac)
        (λ mac.
          get-put mac frame.src_mac entry d.neighbors
          ∙ ap (λ o. if text_eq frame.src_mac mac then some entry else o) (same mac))
        h.1 in
    (d', rw (on_discover_reply-entry frame alias now d h.0.0 h.0.1 h.0.2) runs, agrees)
happen-observe (Happening.request frame ∷ rest) d view same h =
    happen-observe rest (on_discover_request frame d) view
      (λ mac. request_neighbors mac frame d ∙ same mac) h.1
happen-observe (Happening.timer ∷ rest) d view same h =
    happen-observe rest (timer_cb_discover d) view (λ mac. timer_neighbors mac d ∙ same mac) h.1
