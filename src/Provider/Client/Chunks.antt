-- ===== src/Provider/Client/Chunks.antt =====
-- ProxyStream of internal/provider/client.go: how the upstream's bytes are cut into reads makes no difference.
use pogu.Prelude.{
  ◌≡◌, refl, sym, ap, ◌∙◌, List, [], ◌∷◌, ◌++◌, none, some, Bool, true, false, ◌==◌, Text,
  append_assoc, append-nil, Bool-cases, inl, inr,
}
use pogu.Provider.Sse.{Round, read, eof, Outcome, finished, split_lines, on_first}
use pogu.Provider.Sse.Rounds.{split_lines-append}
use pogu.Provider.Client.{Relay, new_relay, relay, collect, data_value, data_values}

-- What is left behind the last line of a text holds no line.
split_lines-rest : (s : Text) → split_lines (split_lines s).1 ≡ ([], (split_lines s).1)
unfolding split_lines
split_lines-rest [] = refl
split_lines-rest (c ∷ s) = elim (Bool-cases (c == 10)) [
  | inl e ↦ rw e (split_lines-rest s)
  | inr e ↦ rw e (first e (split_lines s).0 (split_lines s).1 (split_lines-rest s))
]
  where
    first :
        (c == 10) ≡ false
        → (lines : List Text) (rest : Text) → split_lines rest ≡ ([], rest)
        → split_lines (on_first c lines rest).1 ≡ ([], (on_first c lines rest).1)
    first e [] rest h = rw (e, h) refl
    first e (l ∷ lines) rest h = h

data_values-append : (ls ms : List Text) → data_values (ls ++ ms) ≡ data_values ls ++ data_values ms
unfolding data_values
data_values-append [] ms = refl
data_values-append (l ∷ ls) ms =
    ap (λ t. data_value l ++ t) (data_values-append ls ms)
    ∙ sym (append_assoc (data_value l) (data_values ls) (data_values ms))

-- The reads of a stream that ends, with a client that takes all; the last one has bytes, or none, and the end.
abbrev pub taken : List Text → Text → List (Round × Bool)
taken [] last = (read last (some eof), true) ∷ []
taken (chunk ∷ chunks) last = (read chunk none, true) ∷ taken chunks last

abbrev pub whole : List Text → Text → Text
whole [] last = last
whole (chunk ∷ chunks) last = chunk ++ whole chunks last

abbrev ended : List Text → Text → Text → Relay × Outcome
ended observed pending written =
    (record { observed = observed; pending = pending; written = written }, finished)

ended-equal :
    {o o' : List Text} {p p' w w' : Text} → o ≡ o' → p ≡ p' → w ≡ w' → ended o p w ≡ ended o' p' w'
ended-equal a b c = cc

relay_from :
    (chunks : List Text) (last : Text) (r : Relay)
    → split_lines r.pending ≡ ([], r.pending)
    → relay (taken chunks last) r ≡ (
      record {
        observed = r.observed ++ data_values (split_lines (r.pending ++ whole chunks last)).0;
        pending = (split_lines (r.pending ++ whole chunks last)).1;
        written = r.written ++ whole chunks last;
      },
      finished,
    )
unfolding relay collect data_values
relay_from [] [] r h =
    ended-equal (sym (append-nil r.observed) ∙ ap (λ q. r.observed ++ data_values q.0) (sym quiet))
      (ap (λ q. q.1) (sym quiet)) (sym (append-nil r.written))
  where
    quiet : split_lines (r.pending ++ []) ≡ ([], r.pending)
    quiet = ap split_lines (append-nil r.pending) ∙ h
relay_from [] (c ∷ chunk) r h = refl
relay_from ([] ∷ chunks) last r h = relay_from chunks last r h
relay_from ((c ∷ chunk) ∷ chunks) last r h =
    let one = split_lines (r.pending ++ c ∷ chunk) in
    let two = split_lines (one.1 ++ whole chunks last) in
    let split : split_lines (r.pending ++ (c ∷ chunk ++ whole chunks last))
        ≡ (one.0 ++ two.0, two.1) =
      ap split_lines (sym (append_assoc r.pending (c ∷ chunk) (whole chunks last)))
      ∙ split_lines-append (r.pending ++ c ∷ chunk) (whole chunks last) in
    relay_from chunks last
      (record {
        observed = r.observed ++ data_values one.0;
        pending = one.1;
        written = r.written ++ c ∷ chunk;
      })
      (split_lines-rest (r.pending ++ c ∷ chunk))
    ∙ ended-equal
        (append_assoc r.observed (data_values one.0) (data_values two.0)
          ∙ ap (λ t. r.observed ++ t)
              (sym (data_values-append one.0 two.0) ∙ ap (λ q. data_values q.0) (sym split)))
        (ap (λ q. q.1) (sym split)) (append_assoc r.written (c ∷ chunk) (whole chunks last))

-- A stream that is read to its end, by a client that takes all of it, is written to the client byte for byte, and
-- the collector gets the values of its complete lines, however its bytes are cut into reads; the last bytes
-- may come together with the end.
pub relay_lem :
    (chunks : List Text) (last : Text)
    → relay (taken chunks last) new_relay ≡ (
      record {
        observed = data_values (split_lines (whole chunks last)).0;
        pending = (split_lines (whole chunks last)).1;
        written = whole chunks last;
      },
      finished,
    )
unfolding split_lines
relay_lem chunks last = relay_from chunks last new_relay refl
