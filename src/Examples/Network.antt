-- ===== src/Examples/Network.antt =====
-- A host with a bridge, a wired interface that is down and a wireless one that is up.
use link_chat.Config.{Net, pick_interface, is_candidate, is_up, operstate, any_prefix, filter}
use link_chat.Config.EtherType.{get_ether_type, parse_ethertype, unsigned, after_zero, scan_base}
use link_chat.Prelude.Int.{pos, neg}
use link_chat.Config.Preferred.{IsPreferred, pick_interface-IsPreferred}
use link_chat.Prelude.{
  value_error, err, ok, none, if◌then◌else◌, ◌≡◌, refl, Option, true, some, [], ◌∷◌,
}
use link_chat.Text.{Text, is_space, codes}
use link_chat.Text.Strip.{strip}
use link_chat.Text.Equality.{text_eq}
use link_chat.Transfer.Paths.{starts_with}

abbrev state_text : Text → Option Text
state_text name =
    if text_eq name (codes "wlan0") then some (codes "up\n") else some (codes "down\n")

abbrev host : Net
host = record {
  ifaces = codes "br-1" ∷ codes "eth0" ∷ codes "wlan0" ∷ [];
  has_iface = λ i. true;
  operstate_text = state_text;
  is_wireless = λ i. text_eq i (codes "wlan0");
}

picked : pick_interface host ≡ some (codes "wlan0")
unfolding pick_interface is_candidate is_up operstate any_prefix filter strip text_eq starts_with
    is_space
picked = refl

pick_interface-IsPreferred_example : IsPreferred host (codes "wlan0")
pick_interface-IsPreferred_example = pick_interface-IsPreferred host (codes "wlan0") picked

-- The default, and what `int(s, 0)` takes and refuses.
ether_type_tests :
    (get_ether_type none ≡ ok (pos 34997))
    × (get_ether_type (some (codes " 34933 ")) ≡ ok (pos 34933))
    × (parse_ethertype (codes "0x_0800") ≡ ok (pos 2048))
    × (parse_ethertype (codes "-0b101") ≡ ok (neg (pos 5)))
    × (parse_ethertype (codes "0_0") ≡ ok (pos 0))
    × (parse_ethertype (codes "0800") ≡ err value_error)
    × (parse_ethertype (codes "88B5") ≡ err value_error)
unfolding get_ether_type parse_ethertype unsigned after_zero scan_base strip is_space
ether_type_tests = (refl, refl, refl, refl, refl, refl, refl)
