-- ===== src/Client/EventPump.antt =====
-- ui/services/eventPump.py: the events of the bridge, handed to those who asked for their type.
use link_chat.Prelude.{
  ℕ, zero, suc, ◌+◌, Bool, Option, none, some, List, [], ◌∷◌, ◌++◌, if◌then◌else◌,
}
use link_chat.Dict.{Dict, get, put}
use link_chat.Text.{Text, lower}
use link_chat.Text.Equality.{text_key}

-- What a handler leaves of the state of the services, and whether it has raised.
abbrev pub Handler : Type 0 → Type 0 → Type 0
Handler E S = E → S → S × Bool

pub record Pump (E S : Type 0) : Type 0 where
  pub subs : Dict Text (List (Handler E S))
  pub fallback : Option (Handler E S)

-- `(t or "").lower()`
abbrev pub type_name : Option Text → Text
type_name none = []
type_name (some t) = lower t

-- With the state goes the number of exceptions that were logged.
module _ {E S : Type 0} where
  -- `setdefault(ev_type, []).append(handler)`
  unfoldable pub subscribe : Option Text → Handler E S → Pump E S → Pump E S
  subscribe ev_type handler p = record p {
    subs =
        put (type_name ev_type)
          ((elim (get (type_name ev_type) p.subs) [ none ↦ [] | some hs ↦ hs ]) ++ handler ∷ [])
          p.subs;
  }

  -- A handler under its `try`: an exception is logged.
  unfoldable pub call_handler : Handler E S → E → S × ℕ → S × ℕ
  call_handler h evt (s, logged) = let r = h evt s in (r.0, if r.1 then logged + 1 else logged)

  unfoldable pub run_handlers : List (Handler E S) → E → S × ℕ → S × ℕ
  unfolding call_handler
  run_handlers [] evt s = s
  run_handlers (h ∷ hs) evt s = run_handlers hs evt (call_handler h evt s)

  unfoldable pub run_fallback : Option (Handler E S) → E → S × ℕ → S × ℕ
  unfolding call_handler
  run_fallback none evt s = s
  run_fallback (some h) evt s = call_handler h evt s

-- Of an event: `evt.get("type")`, and whether the dictionary is empty.
module _ {E S : Type 0} (type_of : E → Option Text) (is_empty : E → Bool) where
  unfoldable pub deliver : Pump E S → E → S × ℕ → S × ℕ
  unfolding run_handlers run_fallback
  deliver p evt s = elim (get (type_name (type_of evt)) p.subs) [
    | none ↦ run_fallback p.fallback evt s
    | some hs ↦ elim hs [
      | [] ↦ run_fallback p.fallback evt s
      | h ∷ hs' ↦ run_handlers (h ∷ hs') evt s
    ]
  ]

  -- The queue of the bridge, and the state of the services. An empty event is taken and ends
  -- the round.
  unfoldable pub pump : ℕ → Pump E S → List E → S × ℕ → List E × (S × ℕ)
  unfolding deliver
  pump zero p queue s = (queue, s)
  pump (suc n) p [] s = ([], s)
  pump (suc n) p (evt ∷ queue) s =
      let rest = pump n p queue (deliver p evt s) in if is_empty evt then (queue, s) else rest
