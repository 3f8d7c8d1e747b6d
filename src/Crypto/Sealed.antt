-- ===== src/Crypto/Sealed.antt =====
-- Encrypt and Decrypt of internal/crypto/crypto.go: what is sealed under a master key is read back under it.
use pogu.Prelude.{
  ◌≡◌, refl, sym, ◌∙◌, ap, List, [], ◌∷◌, ◌++◌, Option, some, true, false, ◌==◌, ltb, Text, length,
  length-append, take, drop, arith, Bool-cases, inl, inr, eq_text, some-eq-some,
}
use pogu.Crypto.{encrypt, decrypt, unsealed, key_prefix, nonce_size}

take-length : {A : Type 0} (xs ys : List A) → take (length xs) (xs ++ ys) ≡ xs
take-length [] [] = refl
take-length [] (y ∷ ys) = refl
take-length (x ∷ xs) ys = ap (λ t. x ∷ t) (take-length xs ys)

drop-length : {A : Type 0} (xs ys : List A) → drop (length xs) (xs ++ ys) ≡ ys
drop-length [] ys = refl
drop-length (x ∷ xs) ys = drop-length xs ys

module _ (seal : Text → Text → Text → Text) (unseal : Text → Text → Text → Option Text)
    (encode : Text → Text) (decode : Text → Option Text) where
  unsealed-append :
      (master nonce x : Text)
      → length nonce ≡ nonce_size
      → unsealed seal unseal encode decode master (nonce ++ x) ≡ unseal master nonce x
  unfolding unsealed
  unsealed-append master nonce x h = rw (long) (
      ap (λ n. unseal master (take n (nonce ++ x)) (drop n (nonce ++ x))) (sym h)
      ∙ ap (λ t. unseal master t (drop (length nonce) (nonce ++ x))) (take-length nonce x)
      ∙ ap (unseal master nonce) (drop-length nonce x))
    where
      long : ltb (length (nonce ++ x)) 12 ≡ false
      long = ground (arith, length-append nonce x)

  decrypt-prefixed :
      (master raw : Text)
      → (length master == 32) ≡ true
      → decode (encode raw) ≡ some raw
      → decrypt seal unseal encode decode master (key_prefix ++ encode raw)
        ≡ unsealed seal unseal encode decode master raw
  unfolding decrypt eq_text
  decrypt-prefixed master raw right e = rw (right, long, e) refl
    where
      long : ltb (length (key_prefix ++ encode raw)) 3 ≡ false
      long = ground arith

-- What Encrypt returns, Decrypt reads back to the plaintext under the same master key, if the nonce has its 12
-- bytes, the cipher opens what it sealed under a key of 32 bytes and the base64 code decodes what it encoded.
pub decrypt-encrypt :
    (seal : Text → Text → Text → Text) (unseal : Text → Text → Text → Option Text)
    (encode : Text → Text) (decode : Text → Option Text)
    → ((master nonce p : Text)
        → length master ≡ 32
        → unseal master nonce (seal master nonce p) ≡ some p)
    → ((s : Text) → decode (encode s) ≡ some s)
    → (master nonce p sealed : Text) → length nonce ≡ nonce_size
    → encrypt seal unseal encode decode master nonce p ≡ some sealed
    → decrypt seal unseal encode decode master sealed ≡ some p
unfolding encrypt
decrypt-encrypt seal unseal encode decode opens decodes master nonce p sealed h e =
    elim (Bool-cases (length master == 32)) [
      | inl right ↦
          ap (decrypt seal unseal encode decode master) (some-eq-some (sym e ∙ rw right refl))
          ∙ decrypt-prefixed seal unseal encode decode master (nonce ++ seal master nonce p) right
              (decodes (nonce ++ seal master nonce p))
          ∙ unsealed-append seal unseal encode decode master nonce (seal master nonce p) h
          ∙ opens master nonce p (ground (arith, right))
      | inr wrong ↦ ground (arith, wrong)
    ]
