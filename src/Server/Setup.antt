-- ===== src/Server/Setup.antt =====
-- The start of the server in src/app_server.py: the key, the name and the socket.
pub mod Keys
use link_chat.Prelude.{
  get_elem?, All-get_elem?, if_cases, ℕ, zero, suc, ◌+◌, ◌-◌, ◌*◌, ◌/◌, ◌%◌, ◌^◌, ◌≤◌, ◌<◌, min,
  max, bit_and, bit_or, bit_xor, String, ◌≡◌, refl, sym, ap, ◌∙◌, subst, ◌≢◌, ◌↔◌, ◌⊎◌, inl, inr,
  Bool, true, false, ◌&&◌, ◌||◌, not, Option, none, some, List, [], ◌∷◌, ◌++◌, map, arith, ltb, leb,
  ◌==◌, if◌then◌else◌, ltb→lt, lt→ltb, leb→le, le→leb, ==_iff, ==_refl, le_split, lt_split,
  Bool-cases, Option-cases, length, take, drop, replicate, All, length-append, length-take,
  length-drop, length-replicate, take-append-drop, take-append, drop-append, take_all, drop-drop,
  All-append, All-take, All-drop, Error, value_error, struct_error, unicode_error, file_not_found,
  zero_division, key_error, runtime_error, Result, ok, err, ◌>>=◌, ◌>>◌, guard, >>=-eq-ok,
}
use link_chat.Text.{Text, Bytes, codes, lower, is_space}
use link_chat.Text.Utf8.{encode}
use link_chat.Text.Strip.{strip}
use link_chat.Transfer.Paths.{join_path, starts_with}

-- The value of a hexadecimal digit.
unfoldable pub hex_value : ℕ → Option ℕ
hex_value c =
    if leb b'0' c && leb c b'9'
    then some (c - b'0')
    else if leb b'a' c && leb c b'f'
    then some (c - b'a' + 10)
    else if leb b'A' c && leb c b'F'
    then some (c - b'A' + 10)
    else none

-- The byte of two digits.
abbrev pub hex_byte : Option ℕ → Option ℕ → Option ℕ
hex_byte none low = none
hex_byte (some h) none = none
hex_byte (some h) (some l) = some (h * 16 + l)

abbrev pub cons_byte : Option ℕ → Option Bytes → Option Bytes
cons_byte none bs = none
cons_byte (some b) none = none
cons_byte (some b) (some bs) = some (b ∷ bs)

-- The white space of ASCII, which `bytes.fromhex` skips between two bytes.
abbrev pub is_ascii_space : ℕ → Bool
is_ascii_space c = (leb 9 c && leb c 13) || c == 32

-- `bytes.fromhex`; `none` is its ValueError.
unfoldable pub from_hex : Text → Option Bytes
unfolding hex_value
from_hex [] = some []
from_hex (c ∷ []) = if is_ascii_space c then some [] else none
from_hex (c ∷ d ∷ s) =
    let skipped = from_hex (d ∷ s) in
    let taken = cons_byte (hex_byte (hex_value c) (hex_value d)) (from_hex s) in
    if is_ascii_space c then skipped else taken

-- `all(c in "0123456789abcdef" for c in pe)`
unfoldable pub all_hex : Text → Bool
all_hex [] = true
all_hex (c ∷ s) = ((leb b'0' c && leb c b'9') || (leb b'a' c && leb c b'f')) && all_hex s

abbrev pub or_encoded : Text → Option Bytes → Bytes
or_encoded psk none = encode psk
or_encoded psk (some bs) = bs

-- The bytes of a variable PSK that is not empty.
unfoldable pub psk_bytes : Text → Bytes
unfolding from_hex all_hex
psk_bytes psk =
    let pe = lower (strip psk) in
    if starts_with pe (codes "0x")
    then or_encoded psk (from_hex (drop 2 pe))
    else if all_hex pe && length pe % 2 == 0
    then or_encoded psk (from_hex pe)
    else encode psk

-- The variable PSK, if it is set.
unfoldable pub read_psk : Option Text → Result Bytes
unfolding psk_bytes
read_psk none = err runtime_error
read_psk (some []) = err runtime_error
read_psk (some (c ∷ s)) = ok (psk_bytes (c ∷ s))

-- The variables IPC_DIR and IPC_NAME have their defaults by then.
unfoldable pub resolve_socket_path : Text → Text → Text → Text
resolve_socket_path sock_dir sock_name alias =
    join_path sock_dir (sock_name ++ (codes "-" ++ (alias ++ codes ".sock")))

-- `a or b`
abbrev pub or_text : Option Text → Text → Text
or_text none other = other
or_text (some []) other = other
or_text (some (c ∷ s)) other = c ∷ s

-- The path of the socket: the argument, one of two variables, or the path that the alias gives.
unfoldable pub socket_path : Option Text → Option Text → Option Text → Text → Text → Text → Text
unfolding resolve_socket_path
socket_path given ipc_socket ipc_socket_path sock_dir sock_name alias =
    or_text given
      (or_text ipc_socket (or_text ipc_socket_path (resolve_socket_path sock_dir sock_name alias)))
