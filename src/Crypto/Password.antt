-- ===== src/Crypto/Password.antt =====
-- internal/crypto/password.go: the encoded form of an Argon2id password hash, and its check. `id_key` is
-- argon2.IDKey of the password, the salt, the time, the memory, the threads and the length; `encode` and `decode`
-- are base64.RawStdEncoding, and `atoi` is strconv.Atoi. A character stands for a byte.
use pogu.Prelude.{
  ℕ, ◌+◌, ◌*◌, List, [], ◌∷◌, ◌++◌, Option, none, some, Bool, true, false, ◌&&◌, not, ◌==◌, leb,
  length, if◌then◌else◌, Text, codes, eq_text, cut,
}
use pogu.Service.KeyNames.{decimal}

-- What strconv.Atoi reads: a number, or one below zero.
pub data Number : Type 0 where
  natural : ℕ → Number
  negative : Number

abbrev number_text : ℕ → Text → Text
number_text n s = decimal (n + 1) n s

abbrev argon_time : ℕ
argon_time = 3

abbrev argon_memory : ℕ
argon_memory = 64 * 1024

abbrev argon_threads : ℕ
argon_threads = 2

abbrev argon_key_len : ℕ
argon_key_len = 32

-- strings.Split by one character
unfoldable pub split_at : ℕ → Text → List Text
split_at sep [] = [] ∷ []
split_at sep (c ∷ s) = elim (split_at sep s) [
  | [] ↦ (c ∷ []) ∷ []
  | part ∷ parts ↦ if c == sep then [] ∷ part ∷ parts else (c ∷ part) ∷ parts
]

-- The map as the writes to it, the last of which counts.
unfoldable pub parse_params : (Text → Option Number) → List Text → Option (List (Text × Number))
parse_params atoi [] = some []
parse_params atoi (kv ∷ kvs) =
    let (name, value, found) = cut b'=' kv in
    let rest = parse_params atoi kvs in
    if not found then none else elim (atoi value) [
      | none ↦ none
      | some n ↦ elim rest [ none ↦ none | some params ↦ some ((name, n) ∷ params) ]
    ]

-- The value of a parameter within its bounds; none where it is missing or out of them.
unfoldable pub param : Text → ℕ → ℕ → List (Text × Number) → Option ℕ
param name least most [] = none
param name least most ((k, n) ∷ params) = elim (param_names name params) [
  | true ↦ param name least most params
  | false ↦ if eq_text k name then within n else none
]
  where
    within : Number → Option ℕ
    within negative = none
    within (natural m) = if leb least m && leb m most then some m else none

    param_names : Text → List (Text × Number) → Bool
    param_names name [] = false
    param_names name ((k, n) ∷ params) = if eq_text k name then true else param_names name params

module _ (id_key : Text → Text → ℕ → ℕ → ℕ → ℕ → Text) (encode : Text → Text)
    (decode : Text → Option Text) (atoi : Text → Option Number) where
  -- `salt` is what rand.Read draws.
  unfoldable pub hash_password : Text → Text → Option Text
  unfolding decimal
  hash_password password salt =
      if eq_text password []
      then none
      else some (
          codes "$argon2id$v=19$m="
          ++ number_text argon_memory (
              codes ",t="
              ++ number_text argon_time (
                  codes ",p="
                  ++ number_text argon_threads (
                      codes "$"
                      ++ encode salt
                      ++ codes "$"
                      ++ encode (
                          id_key password salt argon_time argon_memory argon_threads
                            argon_key_len)))))

  -- The check with the parameters, the salt and the hash that are stored.
  unfoldable pub check_hash : Text → ℕ → ℕ → ℕ → Text → Text → Bool
  check_hash password m t p salt expected =
      leb 8 (length salt)
      && leb (length salt) 64
      && leb 16 (length expected)
      && leb (length expected) 64
      && eq_text (id_key password salt t m p (length expected)) expected

  unfoldable pub check_parts : Text → Text → Text → Text → Bool
  unfolding parse_params param check_hash split_at
  check_parts password params salt hash = elim (parse_params atoi (split_at b',' params)) [
    | none ↦ false
    | some ps ↦ elim (param (codes "m") (8 * 1024) (1024 * 1024) ps) [
      | none ↦ false
      | some m ↦ elim (param (codes "t") 1 20 ps) [
        | none ↦ false
        | some t ↦ elim (param (codes "p") 1 32 ps) [
          | none ↦ false
          | some p ↦ elim (decode salt) [
            | none ↦ false
            | some s ↦ elim (decode hash) [ none ↦ false | some h ↦ check_hash password m t p s h ]
          ]
        ]
      ]
    ]
  ]

  unfoldable pub check_password : Text → Text → Bool
  unfolding split_at check_parts
  check_password password encoded = elim (split_at b'$' encoded) [
    | [] ↦ false
    | before ∷ rest ↦ check_fields password rest
  ]
    where
      check_fields : Text → List Text → Bool
      check_fields password (name ∷ version ∷ params ∷ salt ∷ hash ∷ []) =
          eq_text name (codes "argon2id")
          && eq_text version (codes "v=19")
          && check_parts password params salt hash
      check_fields password _ = false
