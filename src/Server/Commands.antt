-- ===== src/Server/Commands.antt =====
-- The text commands of `_on_cmd` in src/app_server.py. Times are in milliseconds.
use link_chat.Prelude.{
  ◌&&◌, not, true, Bool, Error, unicode_error, ◌+◌, leb, ℕ, Option, none, some, List, [], ◌∷◌,
  if◌then◌else◌, length,
}
use link_chat.Dict.{Dict}
use link_chat.Text.{Text, codes}
use link_chat.Text.Utf8.{encode}
use link_chat.Text.Strip.{strip}
use link_chat.Services.Discovery.{Neighbor}
use link_chat.Services.Messaging.{Messaging, send_to_mac, send_to_macs}
use link_chat.Server.Events.{NeighborRow}

-- A value of a command's JSON object, as far as the commands tell values apart: a text, a number
-- from 0 on, or another value.
pub data Json : Type 0 where
  str : Text → Json
  number : ℕ → Json
  other : Json

-- A command; a missing key is `none`. The keys `type`, `cmd`, `dst`, `dst_mac`, `path`
-- and `folder` hold texts.
pub record Cmd : Type 0 where
  pub type : Option Text
  pub cmd : Option Text
  pub dst : Option Text
  pub dst_mac : Option Text
  pub body : Option Json
  pub text : Option Json
  pub active_since : Option Json
  pub path : Option Text
  pub folder : Option Text

pub data Reply : Type 0 where
  pong : Text → Reply
  echo : Json → Reply
  done : Reply
  sent : ℕ → Reply
  rows : List NeighborRow → Reply
  failed : Text → Reply
  raised : Error → Reply

-- `a or b`, where a missing key is falsy too.
abbrev pub or_key : Option Text → Option Text → Text
or_key none none = []
or_key none (some b) = b
or_key (some []) none = []
or_key (some []) (some b) = b
or_key (some (c ∷ s)) b = c ∷ s

-- `cmd.get("body") if "body" in cmd else cmd.get("text", "")`
abbrev pub body_of : Cmd → Json
body_of cmd = elim cmd.body [ some b ↦ b | none ↦ elim cmd.text [ some t ↦ t | none ↦ str [] ] ]

-- The window of activity: one minute if the command names none.
abbrev pub window_of : Option Json → ℕ
window_of none = 60000
window_of (some (str t)) = 60000
window_of (some (number n)) = n
window_of (some other) = 60000

-- The addresses of the neighbors that were seen within the window: `now - last_seen <= window`.
unfoldable pub targets : ℕ → ℕ → Dict Text Neighbor → List Text
targets now window [] = []
targets now window ((mac, n) ∷ rest) =
    let others = targets now window rest in
    if leb now (n.last_seen + window) then mac ∷ others else others

-- `encode` raises for a surrogate.
abbrev pub encodes : Text → Bool
encodes [] = true
encodes (c ∷ s) = let rest = encodes s in not (leb 0xd800 c && leb c 0xdfff) && rest

-- An exception is answered by the clause at the end of `_on_cmd`.
unfoldable pub on_send_text : Cmd → Messaging → Reply × Messaging
unfolding send_to_mac
on_send_text cmd m = elim (or_key cmd.dst cmd.dst_mac) [
  | [] ↦ (failed (codes "missing dst/body"), m)
  | c ∷ s ↦ elim (body_of cmd) [
    | str body ↦
        if encodes body
        then (done, send_to_mac (c ∷ s) (encode body) m)
        else (raised unicode_error, m)
    | number n ↦ (failed (codes "missing dst/body"), m)
    | other ↦ (failed (codes "missing dst/body"), m)
  ]
]

-- The message to everyone, with the white space at its ends taken off.
unfoldable pub broadcast_text : ℕ → ℕ → Dict Text Neighbor → Text → Messaging → Reply × Messaging
unfolding targets send_to_macs
broadcast_text now window neighbors [] m = (failed (codes "mensaje vacío"), m)
broadcast_text now window neighbors (c ∷ s) m =
    let macs = targets now window neighbors in
    if encodes (c ∷ s)
    then (sent (length macs), send_to_macs macs (encode (c ∷ s)) m)
    else (raised unicode_error, m)

unfoldable pub on_send_text_all : ℕ → Dict Text Neighbor → Cmd → Messaging → Reply × Messaging
unfolding broadcast_text
on_send_text_all now neighbors cmd m = elim (body_of cmd) [
  | str body ↦ broadcast_text now (window_of cmd.active_since) neighbors (strip body) m
  | number n ↦ (failed (codes "body debe ser str"), m)
  | other ↦ (failed (codes "body debe ser str"), m)
]
