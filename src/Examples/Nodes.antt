-- ===== src/Examples/Nodes.antt =====
-- The server and the discovery of a node.
use link_chat.Prelude.{
  ℕ, ◌≡◌, refl, inl, Bool, true, ◌&&◌, not, none, some, List, [], ◌∷◌, ◌++◌, map, arith, ◌==◌, ok,
}
use link_chat.Dict.{get}
use link_chat.Text.{Text, codes, is_space}
use link_chat.Text.Equality.{text_key}
use link_chat.Text.Utf8.{encode}
use link_chat.Text.Strip.{IsStripped}
use link_chat.Frame.{FrameSchema, MessageType}
use link_chat.Transfer.Receiver.Data.{has_index}
use link_chat.Services.Discovery.{Discovery}
use link_chat.Services.Table.{Happening, happen, observe, view_of, happen-observe}
use link_chat.Server.Ipc.{Clients, broadcast}
use link_chat.Server.Clients.{sound, broadcast-sound}
use link_chat.Server.Setup.{read_psk}
use link_chat.Server.Setup.Keys.{hex, read_psk-hex}
use link_chat.Examples.Arrivals.{node}

-- The second of three clients has gone.
abbrev clients : Clients
clients = record { writers = 4 ∷ 7 ∷ 9 ∷ []; written = [] }

abbrev gone : ℕ → Bool
gone w = w == 7

broadcast-sound_example :
    ((broadcast gone (codes "{}") clients).written
      ≡ [] ++ map (λ w. (w, codes "{}")) (sound gone (4 ∷ 7 ∷ 9 ∷ [])))
    × ((w : ℕ)
        → has_index w (broadcast gone (codes "{}") clients).writers
          ≡ (has_index w (4 ∷ 7 ∷ 9 ∷ []) && not (gone w)))
broadcast-sound_example = broadcast-sound gone (codes "{}") clients

read_psk-hex_example :
    (read_psk (some (hex (171 ∷ 1 ∷ []))) ≡ ok (171 ∷ 1 ∷ []))
    × (read_psk (some (codes "0x" ++ hex (171 ∷ 1 ∷ []))) ≡ ok (171 ∷ 1 ∷ []))
read_psk-hex_example = read_psk-hex (171 ∷ 1 ∷ []) (omega arith, (omega arith, tt)) (λ e. cc e)

abbrev discovery : Discovery
discovery = record {
  attached = true;
  objects = 0;
  interval = 5000;
  handlers = [];
  tasks = [];
  node = node;
  alias = codes "A";
  neighbors = [];
  has_callback = true;
  notices = 0;
  seq = 0;
  outgoing = [];
}

abbrev reply_frame : FrameSchema
reply_frame = record {
  dst_mac = node.src_mac;
  src_mac = codes "02:42:ac:11:00:03";
  ethertype = 0x88b5;
  header = record {
    message_type = MessageType.discover_reply;
    sequence = 1;
    payload_len = 7;
    checksum = 0;
  };
  payload = encode (codes "alias=B");
}

abbrev happenings : List Happening
happenings =
    Happening.timer
    ∷ Happening.reply reply_frame (codes "B") 10
    ∷ Happening.request reply_frame
    ∷ []

stripped : IsStripped (codes "B")
unfolding is_space
stripped = record { front = refl; back = refl }

no_neighbors : (mac : Text) → view_of discovery mac ≡ none
unfolding get
no_neighbors mac = refl

happen-observe_example :
    (d' : Discovery) × (happen happenings discovery ≡ ok d')
    × ((mac : Text) → view_of d' mac ≡ observe happenings (λ m. none) mac)
happen-observe_example =
    happen-observe happenings discovery (λ m. none) no_neighbors
      (tt, ((refl, stripped, (inl (omega arith), tt)), (tt, tt)))
