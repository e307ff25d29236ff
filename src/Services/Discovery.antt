-- ===== src/Services/Discovery.antt =====
-- src/discover/discover.py. Times are in milliseconds.
use link_chat.Prelude.{
  ℕ, ◌+◌, ◌%◌, ◌^◌, Bool, true, Option, none, some, List, [], ◌∷◌, ◌++◌, if◌then◌else◌, length,
  drop, Result, ok, ◌>>=◌,
}
use link_chat.Dict.{Dict, get, put}
use link_chat.Text.{Text, codes}
use link_chat.Text.Equality.{text_eq, text_key}
use link_chat.Text.Utf8.{encode, decode}
use link_chat.Text.Strip.{strip}
use link_chat.Frame.{MessageType, FrameSchema}
use link_chat.Transfer.{Node}
use link_chat.Threads.{add_message_handler, remove_message_handler, type_key}
use link_chat.Threads.Scheduler.{ScheduledTask, add_scheduled_task, remove_scheduled_task}
use link_chat.Transfer.Paths.{starts_with}

abbrev pub broadcast_mac : Text
broadcast_mac = codes "ff:ff:ff:ff:ff:ff"

pub record Neighbor : Type 0 where
  pub alias : Text
  pub last_seen : ℕ

-- `objects` counts the bound methods made of `_timer_cb_discover`: each access makes another object,
-- whose identity is the count. `handlers` and `tasks` are the registries of the thread manager, the handlers by the names of
-- their methods; `notices` counts the calls of the callback, if one is set.
pub record Discovery : Type 0 where
  pub attached : Bool
  pub objects : ℕ
  pub interval : ℕ
  pub handlers : Dict MessageType Text
  pub tasks : List ScheduledTask
  pub node : Node
  pub alias : Text
  pub neighbors : Dict Text Neighbor
  pub has_callback : Bool
  pub notices : ℕ
  pub seq : ℕ
  pub outgoing : List FrameSchema

-- The task is made at the time `now`.
unfoldable pub attach : ℕ → Discovery → Discovery
unfolding add_message_handler add_scheduled_task
attach now d = if d.attached then d else record d {
  attached = true;
  objects = d.objects + 1;
  handlers =
      add_message_handler MessageType.discover_reply (codes "_on_discover_reply") (
        add_message_handler MessageType.discover_request (codes "_on_discover_request") d.handlers);
  tasks =
      add_scheduled_task (record { action = d.objects; interval = d.interval; last_run = now })
        d.tasks;
}

-- The mark `attached` stays as it is. The method of the task to remove is a new object.
unfoldable pub detach : Discovery → Discovery
unfolding remove_message_handler remove_scheduled_task
detach d = record d {
  objects = d.objects + 1;
  handlers =
      remove_message_handler MessageType.discover_reply
        (remove_message_handler MessageType.discover_request d.handlers);
  tasks = remove_scheduled_task d.objects d.tasks;
}

abbrev pub alias_prefix : Text
alias_prefix = codes "alias="

-- A frame with the local alias, under the next sequence number.
unfoldable pub announce : Text → MessageType → Discovery → Discovery
announce dst_mac msg_type d =
    let seq = (d.seq + 1) % 2 ^ 16 in
    let payload = encode (alias_prefix ++ d.alias) in
    record d {
      seq = seq;
      outgoing =
          d.outgoing
          ++ record {
            dst_mac = dst_mac;
            src_mac = d.node.src_mac;
            ethertype = d.node.ethertype;
            header = record {
              message_type = msg_type;
              sequence = seq;
              payload_len = length payload;
              checksum = 0;
            };
            payload = payload;
          }
            ∷ [];
    }

unfoldable pub timer_cb_discover : Discovery → Discovery
unfolding announce
timer_cb_discover d = announce broadcast_mac MessageType.discover_request d

unfoldable pub on_discover_request : FrameSchema → Discovery → Discovery
unfolding announce
on_discover_request frame d = announce frame.src_mac MessageType.discover_reply d

unfoldable pub parse_alias : Text → Text
parse_alias payload =
    if starts_with payload alias_prefix then strip (drop 6 payload) else strip payload

-- The entry that a reply leaves: the old one with a new time, or a new one.
unfoldable pub seen_entry : Option Neighbor → Text → ℕ → Neighbor
seen_entry none alias now = record { alias = alias; last_seen = now }
seen_entry (some entry) alias now =
    if text_eq entry.alias alias
    then record entry { last_seen = now }
    else record { alias = alias; last_seen = now }

unfoldable pub on_discover_reply : FrameSchema → ℕ → Discovery → Result Discovery
unfolding parse_alias seen_entry
on_discover_reply frame now d = do
  payload ← decode frame.payload
  ok (record d {
    neighbors =
        put frame.src_mac (seen_entry (get frame.src_mac d.neighbors) (parse_alias payload) now)
          d.neighbors;
    notices = if d.has_callback then d.notices + 1 else d.notices;
  })
