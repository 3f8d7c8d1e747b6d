-- ===== src/Provider/Client.antt =====
-- internal/provider/client.go: the path and the headers of a request to the upstream, the headers that are passed
-- on, and ProxyStream. Headers are lists of a name with a value; `to_lower` is strings.ToLower. The HTTP client and
-- the parsing of the base URL are those of Go's libraries.
pub mod Chunks
use pogu.Prelude.{
  ℕ, zero, suc, leb, List, [], ◌∷◌, ◌++◌, Option, none, some, Bool, true, false, ◌&&◌, ◌||◌, not,
  ◌==◌, map, any, where_, if◌then◌else◌, Text, codes, eq_text, trim_space, cut,
}
use mathlib.Core.List.{reverse}
use pogu.Store.{ProviderType}
use pogu.Provider.Body.Blocks.{cut_prefix}
use pogu.Provider.Sse.{
  Round, context_error, read, ReadEnd, eof, failed, Outcome, split_lines, trim_cr,
}
use pogu.Provider.Sse.Outcome.{finished, canceled, context_failed, read_failed, waiting}

abbrev pub Headers : Type 0
Headers = List (Text × Text)

trim_left_slashes : Text → Text
trim_left_slashes [] = []
trim_left_slashes (c ∷ s) = if c == b'/' then trim_left_slashes s else c ∷ s

trim_right_slashes : Text → Text
unfolding trim_left_slashes
trim_right_slashes s = reverse (trim_left_slashes (reverse s))

ends_in_v1 : Text → Bool
unfolding cut_prefix
ends_in_v1 s = elim (cut_prefix (codes "1v/") (reverse s)) [ none ↦ false | some _ ↦ true ]

-- The route without the version that the base path has already.
route_under : Text → Text → Text
unfolding ends_in_v1 cut_prefix
route_under base route =
    if ends_in_v1 base
    then elim (cut_prefix (codes "v1/") route) [ none ↦ route | some rest ↦ rest ]
    else route

-- The path that endpointURL gives the URL, from the path of the base URL.
unfoldable pub endpoint_path : Text → Text → Text
unfolding trim_right_slashes trim_left_slashes route_under
endpoint_path base path =
    trim_right_slashes base ++ 47 ∷ route_under (trim_right_slashes base) (trim_left_slashes path)

abbrev credential_headers : ProviderType → Text → Headers
credential_headers ProviderType.anthropic secret =
    (codes "x-api-key", secret) ∷ (codes "anthropic-version", codes "2023-06-01") ∷ []
credential_headers _ secret = (codes "Authorization", codes "Bearer " ++ secret) ∷ []

-- The headers of NewRequest
unfoldable pub request_headers : ProviderType → Text → Bool → Headers
request_headers type secret stream =
    (codes "Content-Type", codes "application/json") ∷ credential_headers type secret
    ++ (if stream then (codes "Accept", codes "text/event-stream") ∷ [] else [])

-- strings.Split(s, ",")
unfoldable pub split_commas : Text → List Text
split_commas [] = [] ∷ []
split_commas (c ∷ s) = elim (split_commas s) [
  | [] ↦ (c ∷ []) ∷ []
  | t ∷ ts ↦ if c == b',' then [] ∷ t ∷ ts else (c ∷ t) ∷ ts
]

abbrev hop_headers : List Text
hop_headers = map codes (
    "connection" ∷ "content-length" ∷ "keep-alive" ∷ "proxy-authenticate" ∷ "proxy-authorization"
    ∷ "set-cookie" ∷ "te" ∷ "trailer" ∷ "transfer-encoding" ∷ "upgrade" ∷ [])

module _ (to_lower : Text → Text) where
  -- The tokens of the Connection headers.
  unfoldable pub connection_tokens : Headers → List Text
  unfolding split_commas
  connection_tokens [] = []
  connection_tokens ((key, value) ∷ headers) =
      let rest = connection_tokens headers in
      if eq_text key (codes "Connection")
      then map (λ token. to_lower (trim_space token)) (split_commas value) ++ rest
      else rest

  unfoldable pub copy_headers : Headers → Headers
  unfolding connection_tokens
  copy_headers headers =
      where_
        (λ (h : Text × Text). not (
          any (eq_text (to_lower h.0)) (connection_tokens headers)
          || any (eq_text (to_lower h.0)) hop_headers))
        headers

-- The three bytes of a space of unicode.IsSpace in UTF-8
abbrev is_wide_space : ℕ → ℕ → ℕ → Bool
is_wide_space a b c =
    a == 0xe1 && b == 0x9a && c == 0x80
    || a == 0xe2 && b == 0x80 && (leb 0x80 c && leb c 0x8a || c == 0xa8 || c == 0xa9 || c == 0xaf)
    || a == 0xe2 && b == 0x81 && c == 0x9f
    || a == 0xe3 && b == 0x80 && c == 0x80

-- The number of bytes of the space that a text of bytes begins with, 0 where it begins with none; `back` reads the
-- bytes of a reversed text.
unfoldable pub space_width : Bool → Text → ℕ
space_width back [] = 0
space_width back (a ∷ []) = if leb 9 a && leb a 13 || a == 32 then 1 else 0
space_width back (a ∷ b ∷ s) =
    if leb 9 a && leb a 13 || a == 32
    then 1
    else if if back
        then b == 0xc2 && (a == 0x85 || a == 0xa0)
        else a == 0xc2 && (b == 0x85 || b == 0xa0)
    then 2
    else elim s [
      | [] ↦ 0
      | c ∷ _ ↦ if if back then is_wide_space c b a else is_wide_space a b c then 3 else 0
    ]

-- The number is of the bytes of a space that are still to be left out.
unfoldable pub trim_bytes_left : Bool → ℕ → Text → Text
unfolding space_width
trim_bytes_left back k [] = []
trim_bytes_left back (suc k) (c ∷ s) = trim_bytes_left back k s
trim_bytes_left back zero (c ∷ s) = elim (space_width back (c ∷ s)) [
  | zero ↦ c ∷ s
  | suc k ↦ trim_bytes_left back k s
]

-- bytes.TrimSpace
unfoldable pub trim_bytes : Text → Text
unfolding trim_bytes_left
trim_bytes s = reverse (trim_bytes_left true 0 (reverse (trim_bytes_left false 0 s)))

-- What a line of the stream gives the collector.
unfoldable pub data_value : Text → List Text
unfolding cut_prefix trim_cr trim_bytes
data_value line = elim (cut_prefix (codes "data:") (trim_cr line)) [
  | none ↦ []
  | some rest ↦
      let value = trim_bytes rest in
      if eq_text value [] || eq_text value (codes "[DONE]") then [] else value ∷ []
]

unfoldable pub data_values : List Text → List Text
unfolding data_value
data_values [] = []
data_values (line ∷ lines) = data_value line ++ data_values lines

-- What ProxyStream has done: the values for the collector, the start of a line, and the bytes for the client.
pub record Relay : Type 0 where
  pub observed : List Text
  pub pending : Text
  pub written : Text

-- The collector's half of `tee`
unfoldable pub collect : Text → Relay → Relay
unfolding data_values split_lines
collect chunk r =
    let (lines, rest) = split_lines (r.pending ++ chunk) in
    record r { observed = r.observed ++ data_values lines; pending = rest }

abbrev after_read : Option ReadEnd → Relay → Relay × Outcome → Relay × Outcome
after_read none r more = more
after_read (some eof) r more = (r, finished)
after_read (some failed) r more = (r, read_failed)

-- A chunk that is not empty goes to the collector and to the client, which takes it or is gone.
unfoldable pub relay : List (Round × Bool) → Relay → Relay × Outcome
unfolding collect
relay [] r = (r, waiting)
relay ((context_error, takes) ∷ rounds) r = (r, context_failed)
relay ((read [] end, takes) ∷ rounds) r = after_read end r (relay rounds r)
relay ((read (c ∷ chunk) end, takes) ∷ rounds) r =
    let r' : Relay = collect (c ∷ chunk) r in
    let sent : Relay = record r' { written = r'.written ++ c ∷ chunk } in
    let more = after_read end sent (relay rounds sent) in if takes then more else (r', canceled)

abbrev pub new_relay : Relay
new_relay = record { observed = []; pending = []; written = [] }
