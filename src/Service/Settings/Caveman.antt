-- ===== src/Service/Settings/Caveman.antt =====
-- internal/service/caveman.go: the skill file, its levels and the prompt that is made of them. `to_lower` is
-- strings.ToLower and `default_md` the skill file that is bundled (caveman_default.go); a response of the upstream
-- file is its status with its body, in which a character stands for a byte.
use pogu.Prelude.{
  ℕ, List, [], ◌∷◌, ◌++◌, Option, none, some, Bool, ◌&&◌, ◌||◌, not, ◌==◌, leb, map, any,
  if◌then◌else◌, Text, codes, eq_text, trim_space, cut, ascii_lower,
}
use pogu.Service.KeyNames.{is_regex_space}
use pogu.Service.Import.{lines_of}
use pogu.Provider.Body.Chat.{join}
use pogu.Provider.Body.Blocks.{cut_prefix}

pub record CavemanSkill : Type 0 where
  pub leading_instruction : Text
  pub levels : List (Text × Text)
  pub rules : Text
  pub auto_clarity : Text
  pub boundaries : Text

pub record CavemanLevelMeta : Type 0 where
  pub id : Text
  pub label : Text
  pub description : Text

pub record CavemanSettings : Type 0 where
  pub enabled : Bool
  pub level : Text
  pub last_synced_at : Text
  pub levels : List CavemanLevelMeta

abbrev pub default_level : Text
default_level = codes "full"

-- A map as the writes to it, the last of which counts.
unfoldable pub last_value : Text → List (Text × Text) → Option Text
last_value key [] = none
last_value key ((k, v) ∷ writes) = elim (last_value key writes) [
  | some later ↦ some later
  | none ↦ if eq_text k key then some v else none
]

-- The entries of the map, each once.
unfoldable pub entries_of : List (Text × Text) → List (Text × Text)
entries_of [] = []
entries_of ((k, v) ∷ writes) =
    let rest = entries_of writes in
    if any (λ (w : Text × Text). eq_text w.0 k) writes then rest else (k, v) ∷ rest

abbrev text_or_nil : Option Text → Text
text_or_nil none = []
text_or_nil (some s) = s

-- What stands behind the first `sep`.
unfoldable pub behind_first : Text → Text → Option Text
unfolding cut_prefix
behind_first sep [] = cut_prefix sep []
behind_first sep (c ∷ s) =
    let later = behind_first sep s in
    elim (cut_prefix sep (c ∷ s)) [ some rest ↦ some rest | none ↦ later ]

unfoldable pub without_frontmatter : Text → Text
unfolding behind_first
without_frontmatter text = elim (cut_prefix (codes "---") text) [
  | none ↦ text
  | some rest ↦ elim (behind_first (codes "---") rest) [ none ↦ text | some body ↦ trim_space body ]
]

abbrev section_text : List Text → Text
section_text lines = trim_space (join (10 ∷ []) lines)

-- The sections in the order in which they are written to the map.
unfoldable pub sections_of : Text → List Text → List Text → List (Text × Text)
unfolding cut_prefix
sections_of current found [] = (current, section_text found) ∷ []
sections_of current found (line ∷ lines) = elim (cut_prefix (codes "## ") (trim_space line)) [
  | some heading ↦ (current, section_text found) ∷ sections_of (trim_space heading) [] lines
  | none ↦ sections_of current (found ++ line ∷ []) lines
]

unfoldable pub skip_spaces : Text → Text
skip_spaces [] = []
skip_spaces (c ∷ s) = let rest = skip_spaces s in if is_regex_space c then rest else c ∷ s

-- [a-zA-Z0-9_-]
abbrev level_char : ℕ → Bool
level_char c =
    leb b'a' c && leb c b'z'
    || leb b'A' c && leb c b'Z'
    || leb b'0' c && leb c b'9'
    || c == b'_'
    || c == b'-'

unfoldable pub level_name : Text → Text × Text
level_name [] = ([], [])
level_name (c ∷ s) =
    let (name, rest) = level_name s in if level_char c then (c ∷ name, rest) else ([], c ∷ s)

-- `\s*\|\s*([^|]+)\|` behind the name; the spaces in front of the description are trimmed from it later.
unfoldable pub row_description : Text → Option Text
unfolding skip_spaces cut
row_description s = elim (cut_prefix (codes "|") (skip_spaces s)) [
  | none ↦ none
  | some cells ↦
      let (cell, behind, found) = cut b'|' cells in
      if found && not (eq_text cell []) then some (trim_space cell) else none
]

-- levelRowRegex at this place
unfoldable pub level_row_here : Text → Option (Text × Text)
unfolding level_name row_description
level_row_here s = elim (cut_prefix (codes "|") s) [
  | none ↦ none
  | some s1 ↦ elim (cut_prefix (codes "**") (skip_spaces s1)) [
    | none ↦ none
    | some s2 ↦
        let (name, s3) = level_name s2 in
        if eq_text name [] then none else elim (cut_prefix (codes "**") s3) [
          | none ↦ none
          | some s4 ↦ elim (row_description s4) [
            | none ↦ none
            | some desc ↦ some (map ascii_lower name, desc)
          ]
        ]
  ]
]

-- levelRowRegex.FindStringSubmatch: the leftmost match
unfoldable pub level_row : Text → Option (Text × Text)
unfolding level_row_here
level_row [] = none
level_row (c ∷ s) =
    let later = level_row s in elim (level_row_here (c ∷ s)) [ some row ↦ some row | none ↦ later ]

unfoldable pub level_rows : List Text → List (Text × Text)
unfolding level_row
level_rows [] = []
level_rows (row ∷ rows) =
    let rest = level_rows rows in elim (level_row row) [ none ↦ rest | some level ↦ level ∷ rest ]

abbrev section : Text → List (Text × Text) → Text
section name writes = text_or_nil (last_value name writes)

-- The sections as a skill; none without levels or rules.
unfoldable pub skill_of : List (Text × Text) → Option CavemanSkill
unfolding last_value entries_of level_rows lines_of
skill_of writes =
    let levels = entries_of (level_rows (lines_of (section (codes "Intensity") writes))) in
    let rules = section (codes "Rules") writes in
    elim levels [
      | [] ↦ none
      | level ∷ more ↦
          if eq_text rules []
          then none
          else some (record {
            leading_instruction = section (codes "_lead") writes;
            levels = level ∷ more;
            rules = rules;
            auto_clarity = section (codes "Auto-Clarity") writes;
            boundaries = section (codes "Boundaries") writes;
          })
    ]

unfoldable pub parse_caveman_skill : Text → Option CavemanSkill
unfolding without_frontmatter sections_of skill_of lines_of
parse_caveman_skill raw =
    let text = trim_space raw in
    if eq_text text []
    then none
    else skill_of (sections_of (codes "_lead") [] (lines_of (without_frontmatter text)))
