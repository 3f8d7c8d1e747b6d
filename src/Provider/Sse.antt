-- ===== src/Provider/Sse.antt =====
-- scanSSE (internal/provider/sse.go): the lines of a stream as events. What the reader returns in each round
-- is a list of rounds; the callback is a function on a state of its own that says whether to go on.
pub mod Rounds
use pogu.Prelude.{
  ℕ, List, [], ◌∷◌, ◌++◌, Option, none, some, Bool, true, false, ◌==◌, if◌then◌else◌, Text, codes,
  eq_text, cut,
}
use mathlib.Core.List.{reverse}

-- The variables `event`, `dataLines` and `pending`.
pub record Scanner : Type 0 where
  pub event : Text
  pub data_lines : List Text
  pub pending : Text

abbrev pub new_scanner : Scanner
new_scanner = record { event = []; data_lines = []; pending = [] }

pub data ReadEnd : Type 0 where
  eof failed : ReadEnd

-- A round of the outer loop: the context has an error, or the reader gives bytes, and perhaps an end.
pub data Round : Type 0 where
  context_error : Round
  read : Text → Option ReadEnd → Round

-- How the scan ends: `waiting` where the rounds that are given do not end it.
pub data Outcome : Type 0 where
  finished canceled context_failed read_failed waiting : Outcome

unfoldable pub on_first : ℕ → List Text → Text → List Text × Text
on_first c [] rest = ([], c ∷ rest)
on_first c (l ∷ lines) rest = ((c ∷ l) ∷ lines, rest)

-- The complete lines of a text, and what is left behind the last one.
unfoldable pub split_lines : Text → List Text × Text
unfolding on_first
split_lines [] = ([], [])
split_lines (c ∷ s) =
    let (lines, rest) = split_lines s in
    if c == 10 then ([] ∷ lines, rest) else on_first c lines rest

unfoldable pub trimmed : Text → Text
trimmed [] = []
trimmed (c ∷ s) = if c == 13 then reverse s else reverse (c ∷ s)

-- strings.TrimSuffix(s, "\r")
unfoldable pub trim_cr : Text → Text
trim_cr s = trimmed (reverse s)

-- strings.TrimPrefix(s, " ")
trim_blank : Text → Text
trim_blank [] = []
trim_blank (c ∷ s) = if c == 32 then s else c ∷ s

-- strings.Join(lines, "\n")
unfoldable pub join_lines : List Text → Text
join_lines [] = []
join_lines (l ∷ []) = l
join_lines (l ∷ m ∷ lines) = l ++ 10 ∷ join_lines (m ∷ lines)

-- A line that is a field.
field : Text → Text → Scanner → Scanner
unfolding trim_blank
field name value s =
    if eq_text name (codes "event")
    then record s { event = trim_blank value }
    else if eq_text name (codes "data")
    then record s { data_lines = s.data_lines ++ trim_blank value ∷ [] }
    else s

-- A line that is not empty; one that starts with a colon is a comment.
unfoldable pub on_line : Text → Scanner → Scanner
unfolding field
on_line line s =
    let (name, value, found) = cut b':' line in
    if found then (if eq_text name [] then s else field name value s) else s

-- Stop or go on, by the flag.
abbrev pub proceed {ℓ κ} :
    {S : Type ℓ} {R : Type κ} → (Scanner × S) × Bool → (Scanner → S → R) → (Scanner → S → R) → R
proceed ((s, x), false) stop go_on = stop s x
proceed ((s, x), true) stop go_on = go_on s x

module _ {ℓ} {S : Type ℓ} (on_event : S → Text → Text → S × Bool) where
  -- `flush`: what the callback did, and whether to go on.
  flush : Scanner → S → (Scanner × S) × Bool
  unfolding join_lines
  flush s x = elim s.data_lines [
    | [] ↦ ((record s { event = [] }, x), true)
    | l ∷ lines ↦
        let (x', go_on) = on_event x s.event (join_lines (l ∷ lines)) in
        ((record s { event = []; data_lines = [] }, x'), go_on)
  ]

  -- One round of the inner loop.
  take_line : Text → Scanner → S → (Scanner × S) × Bool
  unfolding flush on_line trim_cr trimmed
  take_line line s x =
      if eq_text (trim_cr line) [] then flush s x else ((on_line (trim_cr line) s, x), true)

  -- The inner loop: it stops at the first call that says so.
  unfoldable pub take_lines : List Text → Scanner → S → (Scanner × S) × Bool
  unfolding take_line
  take_lines [] s x = ((s, x), true)
  take_lines (l ∷ lines) s x =
      proceed (take_line l s x) (λ s' x'. ((s', x'), false)) (λ s' x'. take_lines lines s' x')

  -- The bytes of one read.
  unfoldable pub take_bytes : Text → Scanner → S → (Scanner × S) × Bool
  unfolding split_lines take_lines
  take_bytes bytes s x =
      let (lines, rest) = split_lines (s.pending ++ bytes) in
      take_lines lines (record s { pending = rest }) x

  -- The end of the input: an event whose last line is complete is still given to the callback.
  at_eof : Scanner → S → S × Outcome
  unfolding join_lines
  at_eof s x = elim s.data_lines [
    | [] ↦ (x, finished)
    | l ∷ lines ↦
        let (x', go_on) = on_event x s.event (join_lines (l ∷ lines)) in
        (x', if go_on then finished else canceled)
  ]

  -- Behind the bytes of a read.
  at_end : Option ReadEnd → Scanner → S → S × Outcome → S × Outcome
  unfolding at_eof
  at_end none s x more = more
  at_end (some eof) s x more = at_eof s x
  at_end (some failed) s x more = (x, read_failed)

  unfoldable pub scan : List Round → Scanner → S → S × Outcome
  unfolding take_bytes at_end
  scan [] s x = (x, waiting)
  scan (context_error ∷ rounds) s x = (x, context_failed)
  scan (read bytes end ∷ rounds) s x =
      proceed (take_bytes bytes s x) (λ s' x'. (x', canceled))
        (λ s' x'. at_end end s' x' (scan rounds s' x'))
