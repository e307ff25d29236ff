-- ===== src/Security.antt =====
-- src/security/security_handler.py: the key derivation, the key stream and the authenticated data.
-- HMAC-SHA256 is the standard library's, over OpenSSL: a parameter with the length of its digests.
pub mod Manager
pub mod Streams
pub mod Keys
pub mod Seal
pub mod Authentic
use link_chat.Prelude.{
  ◌>>=◌, ℕ, zero, suc, ◌+◌, ◌≡◌, true, false, [], ◌∷◌, ◌++◌, ltb, if◌then◌else◌, length, take,
  replicate, value_error, Result, ok, err,
}
use link_chat.Text.{Text, Bytes, AreBytes, codes}
use link_chat.Text.Utf8.{encode}
use link_chat.Text.Decimal.{format}
use link_chat.Frame.{MessageType, FrameSchema}
use link_chat.Frame.Struct.{pack_u32}

-- `hmac.new(key, msg, hashlib.sha256).digest()`
pub record Hmac : Type 0 where
  pub digest : Bytes → Bytes → Bytes
  pub digest_len : (key msg : Bytes) → length (digest key msg) ≡ 32
  pub digest_bytes : (key msg : Bytes) → AreBytes (digest key msg)

-- `bytes([n])`
unfoldable pub one_byte : ℕ → Result Bytes
one_byte n = if ltb n 256 then ok (n ∷ []) else err value_error

-- `nonce or b"\x00" * 32`
abbrev pub salt : Bytes → Bytes
salt [] = replicate 32 0
salt (b ∷ bs) = b ∷ bs

module _ (h : Hmac) where
  -- The `while` loop of `keystream`. A round adds 32 bytes, so fuel `nbytes` is enough.
  unfoldable pub keystream_loop : ℕ → Bytes → Bytes → ℕ → ℕ → Bytes → Result Bytes
  keystream_loop zero k nonce nbytes counter out = ok out
  keystream_loop (suc fuel) k nonce nbytes counter out = elim (ltb (length out) nbytes) [
    | true ↦ do
      c ← pack_u32 counter
      keystream_loop fuel k nonce nbytes (counter + 1) (out ++ h.digest k (nonce ++ c))
    | false ↦ ok out
  ]

  unfoldable pub keystream : Bytes → Bytes → ℕ → Result Bytes
  unfolding keystream_loop
  keystream k_enc nonce nbytes = do
    out ← keystream_loop nbytes k_enc nonce nbytes 0 []
    ok (take nbytes out)

  unfoldable pub hkdf_extract : Bytes → Bytes → Bytes
  hkdf_extract nonce preshared_key = h.digest nonce preshared_key

  -- The `while` loop of `_hkdf_expand`; `t` is the block before.
  unfoldable pub expand_loop : ℕ → Bytes → Bytes → ℕ → ℕ → Bytes → Bytes → Result Bytes
  expand_loop zero prk info len counter t out = ok out
  expand_loop (suc fuel) prk info len counter t out = elim (ltb (length out) len) [
    | true ↦ do
      c ← one_byte counter
      let t' = h.digest prk (t ++ info ++ c)
      expand_loop fuel prk info len (counter + 1) t' (out ++ t')
    | false ↦ ok out
  ]

  unfoldable pub hkdf_expand : Bytes → Bytes → ℕ → Result Bytes
  unfolding expand_loop one_byte
  hkdf_expand prk info len = do out ← expand_loop len prk info len 1 [] []; ok (take len out)

  unfoldable pub hkdf_sha256 : Bytes → Bytes → Bytes → ℕ → Result Bytes
  unfolding hkdf_extract hkdf_expand
  hkdf_sha256 preshared_key nonce info len =
      hkdf_expand (hkdf_extract (salt nonce) preshared_key) info len

-- How an f-string prints a member of the enumeration.
unfoldable pub type_text : MessageType → Text
type_text MessageType.discover_request = codes "MessageType.DISCOVER_REQUEST"
type_text MessageType.discover_reply = codes "MessageType.DISCOVER_REPLY"
type_text MessageType.app_message = codes "MessageType.APP_MESSAGE"
type_text MessageType.ack = codes "MessageType.ACK"
type_text MessageType.file_meta = codes "MessageType.FILE_META"
type_text MessageType.file_data = codes "MessageType.FILE_DATA"
type_text MessageType.file_fin = codes "MessageType.FILE_FIN"

unfoldable pub aad_for : FrameSchema → Bytes
unfolding type_text
aad_for f = encode (
    f.src_mac
    ++ b'|'
      ∷ (f.dst_mac
          ++ b'|'
            ∷ (format f.ethertype
                ++ b'|' ∷ (type_text f.header.message_type ++ b'|' ∷ format f.header.sequence))))
