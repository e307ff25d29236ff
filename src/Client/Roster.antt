-- ===== src/Client/Roster.antt =====
-- ui/services/roster.py and the Contact of ui/state/models.py. A row's `mac` is a text.
use link_chat.Prelude.{
  ℕ, zero, suc, Bool, true, false, ◌&&◌, ◌||◌, Option, none, some, List, [], ◌∷◌, ◌++◌, ltb, ◌==◌,
  if◌then◌else◌, length,
}
use link_chat.Dict.{Dict, get, put}
use link_chat.Text.{Text, codes}
use link_chat.Text.Equality.{text_key}

pub record Contact : Type 0 where
  pub mac : Text
  pub name : Text
  pub online : Bool

pub record Row : Type 0 where
  pub mac : Text
  pub alias : Option Text
  pub last_seen_ms : Option ℕ

-- `idx` maps an address to the place that its contact had when it was added.
pub record Roster : Type 0 where
  pub contacts : List Contact
  pub selected_mac : Option Text
  pub idx : Dict Text ℕ

-- `r.get("alias") or "?"`
abbrev pub alias_of : Row → Text
alias_of r = elim r.alias [ none ↦ codes "?" | some a ↦ elim a [ [] ↦ codes "?" | c ∷ s ↦ c ∷ s ] ]

-- `r.get("last_seen_ms", 1e9) < 10_000`
abbrev pub is_online : Row → Bool
is_online r = elim r.last_seen_ms [ none ↦ false | some t ↦ ltb t 10000 ]

-- `c = self.contacts[i]; c.name = alias; c.online = online`; a place past the end raises
-- `IndexError`.
unfoldable pub update_at : ℕ → Text → Bool → List Contact → Option (List Contact)
update_at i name online [] = none
update_at zero name online (c ∷ cs) = some (record c { name = name; online = online } ∷ cs)
update_at (suc i) name online (c ∷ cs) = elim (update_at i name online cs) [
  | none ↦ none
  | some cs' ↦ some (c ∷ cs')
]

unfoldable pub add_row : Row → Roster → Option Roster
unfolding update_at
add_row r s = elim (get r.mac s.idx) [
  | none ↦ some (record s {
    idx = put r.mac (length s.contacts) s.idx;
    contacts = s.contacts ++ record { mac = r.mac; name = alias_of r; online = is_online r } ∷ [];
  })
  | some i ↦ elim (update_at i (alias_of r) (is_online r) s.contacts) [
    | none ↦ none
    | some cs ↦ some (record s { contacts = cs })
  ]
]

unfoldable pub add_rows : List Row → Roster → Option Roster
unfolding add_row
add_rows [] s = some s
add_rows (r ∷ rs) s = elim (add_row r s) [ none ↦ none | some s' ↦ add_rows rs s' ]

-- `s <= t` of two texts, by code points.
unfoldable pub text_le : Text → Text → Bool
text_le [] t = true
text_le (a ∷ s) [] = false
text_le (a ∷ s) (b ∷ t) = let rest = text_le s t in ltb a b || (a == b && rest)

-- `if not self.selected_mac and self.contacts`
unfoldable pub first_selected : Option Text → List Contact → Option Text
first_selected (some (a ∷ s)) cs = some (a ∷ s)
first_selected (some []) [] = some []
first_selected none [] = none
first_selected (some []) (c ∷ cs) = some c.mac
first_selected none (c ∷ cs) = some c.mac

-- `lower` is `str.lower`, whose tables are those of Unicode.
module _ (lower : Text → Text) where
  -- The order of the keys `(not c.online, c.name.lower())`.
  unfoldable pub contact_le : Contact → Contact → Bool
  unfolding text_le
  contact_le c d =
      if c.online
      then (if d.online then text_le (lower c.name) (lower d.name) else true)
      else (if d.online then false else text_le (lower c.name) (lower d.name))

  -- `list.sort` is stable: a contact goes in front of those that are not below it.
  unfoldable pub insert : Contact → List Contact → List Contact
  unfolding contact_le
  insert c [] = c ∷ []
  insert c (d ∷ ds) = let rest = insert c ds in if contact_le c d then c ∷ d ∷ ds else d ∷ rest

  unfoldable pub sort : List Contact → List Contact
  unfolding insert
  sort [] = []
  sort (c ∷ cs) = insert c (sort cs)

  unfoldable pub on_neighbors_changed : List Row → Roster → Option Roster
  unfolding add_rows sort first_selected
  on_neighbors_changed rows s = elim (add_rows rows s) [
    | none ↦ none
    | some s' ↦ some (record s' {
      contacts = sort s'.contacts;
      selected_mac = first_selected s'.selected_mac (sort s'.contacts);
    })
  ]

unfoldable pub select : Text → Roster → Roster
select mac s = elim (get mac s.idx) [ none ↦ s | some i ↦ record s { selected_mac = some mac } ]
