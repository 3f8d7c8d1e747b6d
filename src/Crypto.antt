-- ===== src/Crypto.antt =====
-- internal/crypto/crypto.go: the sealed form of a secret, its fingerprint and its mask. Texts are of bytes,
-- and a secret's characters of one byte each. AES-GCM, HMAC-SHA-256 and the base64 of Go's libraries are
-- parameters; the key file (LoadOrCreateKey) is input and output.
pub mod Sealed
pub mod Password
use pogu.Prelude.{
  ℕ, ◌-◌, ◌<◌, ◌≡◌, refl, ◌∙◌, ap, List, [], ◌∷◌, ◌++◌, Option, none, some, Bool, true, false, ◌&&◌,
  not, ltb, leb, ◌==◌, if◌then◌else◌, Text, codes, length, take, drop, trim_space, eq_text, arith,
  Bool-cases, inl, inr,
}

abbrev pub key_prefix : Text
key_prefix = codes "v1:"

-- (cipher.AEAD) NonceSize of GCM
abbrev pub nonce_size : ℕ
nonce_size = 12

module _ (seal : Text → Text → Text → Text) (unseal : Text → Text → Text → Option Text)
    (encode : Text → Text) (decode : Text → Option Text) where
  -- `nonce` is what rand.Read draws.
  unfoldable pub encrypt : Text → Text → Text → Option Text
  encrypt master nonce plaintext =
      if length master == 32
      then some (key_prefix ++ encode (nonce ++ seal master nonce plaintext))
      else none

  unfoldable pub unsealed : Text → Text → Option Text
  unsealed master raw =
      if ltb (length raw) nonce_size
      then none
      else unseal master (take nonce_size raw) (drop nonce_size raw)

  unfoldable pub decrypt : Text → Text → Option Text
  unfolding unsealed
  decrypt master sealed =
      if not (length master == 32)
      then none
      else if ltb (length sealed) (length key_prefix)
      then none
      else if eq_text (take 3 sealed) key_prefix
      then elim (decode (drop 3 sealed)) [ none ↦ none | some raw ↦ unsealed master raw ]
      else none

-- HMAC-SHA-256 under the master key
unfoldable pub key_fingerprint : (Text → Text → Text) → Text → Text → Text
key_fingerprint hmac master secret = hmac master (codes "pogu:provider_key:" ++ secret)

abbrev last_four : Text → Text
last_four s = drop (length s - 4) s

unfoldable pub mask_secret : Text → Text
mask_secret secret =
    let s = trim_space secret in
    if eq_text s []
    then []
    else if leb (length s) 4
    then codes "****"
    else if leb (length s) 8
    then codes "..." ++ last_four s
    else if eq_text (take 3 s) (codes "sk-") && leb 10 (length s)
    then codes "sk-..." ++ last_four s
    else if ltb 12 (length s)
    then take 3 s ++ codes "..." ++ last_four s
    else codes "..." ++ last_four s
