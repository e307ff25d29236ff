-- ===== src/Security/Manager.antt =====
-- src/security/security_manager.py. The random nonce of a frame is an argument.
use link_chat.Prelude.{
  ◌>>=◌, ℕ, ◌+◌, ◌-◌, bit_xor, Bool, true, false, ◌||◌, not, Option, none, some, [], ◌∷◌, ◌++◌, ltb,
  ◌==◌, if◌then◌else◌, length, take, drop, Result, ok,
}
use link_chat.Text.{Bytes, codes}
use link_chat.Text.Equality.{text_eq}
use link_chat.Frame.{MessageType, FrameSchema}
use link_chat.Security.{Hmac, keystream, hkdf_sha256, aad_for}

abbrev pub nonce_len : ℕ
nonce_len = 12

abbrev pub version : ℕ
version = 1

abbrev pub tag_len : ℕ
tag_len = 16

unfoldable pub should_protect : MessageType → Bool
should_protect MessageType.discover_request = false
should_protect MessageType.discover_reply = false
should_protect _ = true

-- `bytes(a ^ b for a, b in zip(xs, ys))`
unfoldable pub xor_bytes : Bytes → Bytes → Bytes
xor_bytes [] ys = []
xor_bytes (x ∷ xs) [] = []
xor_bytes (x ∷ xs) (y ∷ ys) = bit_xor x y ∷ xor_bytes xs ys

abbrev pub enc_info : Bytes
enc_info = codes "enc"

abbrev pub mac_info : Bytes
mac_info = codes "mac"

-- The frame with another payload and its length; the checksum is the schema's default.
abbrev pub with_payload : FrameSchema → Bytes → FrameSchema
with_payload f payload = record f {
  header = record (f.header) { payload_len = length payload; checksum = 0 };
  payload = payload;
}

-- The slices `data[1:13]`, `data[13:-16]` and `data[-16:]` of a payload of 29 bytes or more.
abbrev pub nonce_of : Bytes → Bytes
nonce_of d = take nonce_len (drop 1 d)

abbrev pub ciphertext_of : Bytes → Bytes
ciphertext_of d = take (length d - tag_len - (1 + nonce_len)) (drop nonce_len (drop 1 d))

abbrev pub tag_of : Bytes → Bytes
tag_of d = drop (length d - tag_len) d

-- `data[0] != version`
abbrev pub has_version : Bytes → Bool
has_version [] = false
has_version (b ∷ d) = b == version

module _ (h : Hmac) (pre_shared_key : Bytes) where
  -- `hmac.new(key_mac, aad + nonce + ciphertext, sha256).digest()[:16]`
  unfoldable pub tag_for : Bytes → Bytes → Bytes → Bytes → Bytes
  tag_for key_mac aad nonce ciphertext =
      take tag_len (h.digest key_mac (aad ++ (nonce ++ ciphertext)))

  unfoldable pub seal : Bytes → FrameSchema → Result FrameSchema
  unfolding tag_for
  seal nonce f = do
    key_enc ← hkdf_sha256 h pre_shared_key nonce enc_info 32
    key_mac ← hkdf_sha256 h pre_shared_key nonce mac_info 32
    ks ← keystream h key_enc nonce (length f.payload)
    let ciphertext = xor_bytes f.payload ks
    let tag = tag_for key_mac (aad_for f) nonce ciphertext
    ok (with_payload f (version ∷ (nonce ++ (ciphertext ++ tag))))

  unfoldable pub protect_outgoing : Bytes → FrameSchema → Result FrameSchema
  unfolding seal
  protect_outgoing nonce f = if should_protect f.header.message_type then seal nonce f else ok f

  unfoldable pub open_sealed : FrameSchema → Bytes → Bytes → Bytes → Result (Option FrameSchema)
  unfolding tag_for
  open_sealed f nonce ciphertext tag = do
    key_enc ← hkdf_sha256 h pre_shared_key nonce enc_info 32
    key_mac ← hkdf_sha256 h pre_shared_key nonce mac_info 32
    if text_eq tag (tag_for key_mac (aad_for f) nonce ciphertext)
        then (do
          ks ← keystream h key_enc nonce (length ciphertext)
          ok (some (with_payload f (xor_bytes ciphertext ks))))
        else ok none

  unfoldable pub accept_incoming : FrameSchema → Result (Option FrameSchema)
  accept_incoming f =
      if should_protect f.header.message_type
      then if ltb (length f.payload) (1 + nonce_len + tag_len) || not (has_version f.payload)
        then ok none
        else open_sealed f (nonce_of f.payload) (ciphertext_of f.payload) (tag_of f.payload)
      else ok (some f)
