-- ===== src/Tests/Sse.antt =====
-- The scanner of a stream, at one stream in two reads.
use pogu.Prelude.{◌≡◌, refl, List, [], ◌∷◌, ◌++◌, some, Bool, true, Text, codes, eq_text, cut}
use pogu.Provider.Sse.{scan, read, eof, new_scanner, finished}
use pogu.Provider.Sse.Rounds.{reads, joined, scan-reads}

abbrev noted : List (Text × Text) → Text → Text → List (Text × Text) × Bool
noted seen event data_ = (seen ++ (event, data_) ∷ [], true)

abbrev parts : List Text
parts = codes "event: pi" ∷ (codes "ng" ++ 10 ∷ codes "data:a") ∷ []

abbrev tail : Text
tail = 13 ∷ 10 ∷ codes "data: b" ++ 10 ∷ 10 ∷ codes ": x"

event_is_read :
    scan noted (reads parts ++ read tail (some eof) ∷ []) new_scanner []
    ≡ ((codes "ping", codes "a" ++ 10 ∷ codes "b") ∷ [], finished)
unfolding scan eq_text cut
event_is_read = refl

scan-reads_example :
    scan noted (reads parts ++ read tail (some eof) ∷ []) new_scanner []
    ≡ scan noted (read (joined parts ++ tail) (some eof) ∷ []) new_scanner []
scan-reads_example = scan-reads noted parts tail (some eof) [] new_scanner []
