-- ===== src/Config.antt =====
-- src/prepare/network_config.py: the choice of the interface and of the alias.
pub mod EtherType
pub mod Preferred
use link_chat.Prelude.{
  Bool, false, ◌&&◌, ◌||◌, not, Option, none, some, List, [], ◌∷◌, if◌then◌else◌,
}
use link_chat.Text.{Text, codes}
use link_chat.Text.Equality.{text_eq}
use link_chat.Text.Strip.{strip}
use link_chat.Transfer.Paths.{starts_with}

-- What the directory /sys/class/net holds. A listing that fails has no names, and an `operstate`
-- that cannot be read is `none`.
pub record Net : Type 0 where
  pub ifaces : List Text
  pub has_iface : Text → Bool
  pub operstate_text : Text → Option Text
  pub is_wireless : Text → Bool

abbrev pub virtual_prefixes : List Text
virtual_prefixes =
    codes "lo"
    ∷ codes "docker"
    ∷ codes "br-"
    ∷ codes "veth"
    ∷ codes "tun"
    ∷ codes "tap"
    ∷ codes "vmnet"
    ∷ codes "tailscale"
    ∷ codes "wg"
    ∷ []

unfoldable pub any_prefix : List Text → Text → Bool
unfolding starts_with
any_prefix [] name = false
any_prefix (p ∷ ps) name = starts_with name p || any_prefix ps name

unfoldable pub filter : (Text → Bool) → List Text → List Text
filter p [] = []
filter p (x ∷ xs) = let rest = filter p xs in if p x then x ∷ rest else rest

abbrev pub first : List Text → Option Text
first [] = none
first (x ∷ xs) = some x

abbrev pub or_else : Option Text → Option Text → Option Text
or_else none y = y
or_else (some x) y = some x

-- `t or other`
abbrev pub or_text : Option Text → Text → Text
or_text none other = other
or_text (some []) other = other
or_text (some (c ∷ s)) other = c ∷ s

module _ (net : Net) where
  unfoldable pub is_candidate : Text → Bool
  unfolding any_prefix
  is_candidate name = not (any_prefix virtual_prefixes name) && net.has_iface name

  unfoldable pub operstate : Text → Text
  unfolding strip
  operstate name = elim (net.operstate_text name) [ none ↦ codes "unknown" | some t ↦ strip t ]

  unfoldable pub is_up : Text → Bool
  unfolding operstate
  is_up name = text_eq (operstate name) (codes "up")

  unfoldable pub pick_interface : Option Text
  unfolding is_candidate is_up filter
  pick_interface =
      let found = filter is_candidate net.ifaces in
      or_else (first (filter (λ i. not (net.is_wireless i) && is_up i) found)) (
        or_else (first (filter (λ i. net.is_wireless i && is_up i) found))
          (or_else (first (filter is_up found)) (first found)))

  -- The variable INTERFACE, if it is set.
  unfoldable pub get_interface : Option Text → Text
  unfolding is_candidate pick_interface
  get_interface none = or_text pick_interface (codes "eth0")
  get_interface (some []) = or_text pick_interface (codes "eth0")
  get_interface (some (c ∷ s)) =
      if is_candidate (c ∷ s) then c ∷ s else or_text pick_interface (codes "eth0")

-- The variables ALIAS and NODE_ALIAS, if they are set, and the name of the host.
unfoldable pub get_alias : Option Text → Option Text → Text → Text
get_alias alias node_alias host_name = or_text alias (or_text node_alias host_name)
