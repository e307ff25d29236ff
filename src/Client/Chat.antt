-- ===== src/Client/Chat.antt =====
-- ui/services/chat.py: the messages of each conversation. The time of day is an argument; what is
-- sent to the server stands in `sent`, oldest first.
use link_chat.Prelude.{ℕ, Bool, Option, none, some, List, [], ◌∷◌, ◌++◌, if◌then◌else◌}
use link_chat.Dict.{Dict, get, put}
use link_chat.Text.{Text, codes}
use link_chat.Text.Equality.{text_key}

pub data Side : Type 0 where
  tx : Side
  rx : Side

pub record ChatMessage : Type 0 where
  pub side : Side
  pub text : Text
  pub time : Text

-- The commands of the chat; `active_since` is in milliseconds.
pub data Cmd : Type 0 where
  send_text_cmd : Text → Text → Cmd
  send_text_all_cmd : Text → Option ℕ → Cmd

pub record Chat : Type 0 where
  pub messages_by_mac : Dict Text (List ChatMessage)
  pub sent : List Cmd

abbrev pub thread : Text → Dict Text (List ChatMessage) → List ChatMessage
thread mac d = elim (get mac d) [ none ↦ [] | some ms ↦ ms ]

unfoldable pub append : Text → ChatMessage → Chat → Chat
append mac msg c = record c {
  messages_by_mac = put mac (thread mac c.messages_by_mac ++ msg ∷ []) c.messages_by_mac;
}

abbrev pub send_cmd : Cmd → Chat → Chat
send_cmd cmd c = record c { sent = c.sent ++ cmd ∷ [] }

-- `str(evt.get(key, ""))`
abbrev pub or_blank : Option Text → Text
or_blank none = []
or_blank (some t) = t

unfoldable pub on_chat : Text → Option Text → Option Text → Chat → Chat
unfolding append
on_chat now src text c =
    append (or_blank src) (record { side = Side.rx; text = or_blank text; time = now }) c

unfoldable pub send_text : Text → Text → Text → Chat → Chat
unfolding append
send_text now dst_mac text c =
    send_cmd (Cmd.send_text_cmd dst_mac text)
      (append dst_mac (record { side = Side.tx; text = text; time = now }) c)

abbrev pub all_thread : Text
all_thread = codes "__ALL__"

-- A negative `active_since` is left out: it is `none` here.
unfoldable pub send_text_all : Text → Text → Option ℕ → Bool → Chat → Chat
unfolding append
send_text_all now text active_since echo c =
    send_cmd (Cmd.send_text_all_cmd text active_since)
      (if echo then append all_thread (record { side = Side.tx; text = text; time = now }) c else c)
