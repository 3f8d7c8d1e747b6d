-- ===== src/Provider/Sse/Rounds.antt =====
-- The events of a stream do not depend on how the reads cut its bytes.
use pogu.Prelude.{
  ℕ, ◌≡◌, refl, sym, ap, ◌∙◌, List, [], ◌∷◌, ◌++◌, append_assoc, Option, none, Bool, true, false,
  ◌==◌, Text, arith, Bool-cases, inl, inr,
}
use pogu.Provider.Sse.{
  Scanner, Round, read, ReadEnd, Outcome, split_lines, on_first, take_lines, take_line, take_bytes,
  flush, on_line, field, at_end, scan, proceed,
}

on_first-append :
    (c : ℕ) (lines : List Text) (rest b : Text)
    → (c == 10) ≡ false
    → on_first c (lines ++ (split_lines (rest ++ b)).0) (split_lines (rest ++ b)).1 ≡ (
      (on_first c lines rest).0 ++ (split_lines ((on_first c lines rest).1 ++ b)).0,
      (split_lines ((on_first c lines rest).1 ++ b)).1,
    )
unfolding split_lines
on_first-append c [] rest b e = rw e
on_first-append c (l ∷ lines) rest b e = refl

-- The split of a text behind a prefix goes on from what the prefix leaves.
pub split_lines-append :
    (p b : Text)
    → split_lines (p ++ b) ≡ (
      (split_lines p).0 ++ (split_lines ((split_lines p).1 ++ b)).0,
      (split_lines ((split_lines p).1 ++ b)).1,
    )
unfolding split_lines
split_lines-append [] b = refl
split_lines-append (c ∷ p) b = elim (Bool-cases (c == 10)) [
  | inl e ↦ rw e (ap (λ q. ([] ∷ q.0, q.1)) (split_lines-append p b))
  | inr e ↦ rw e (
      ap (λ q. on_first c q.0 q.1) (split_lines-append p b)
      ∙ on_first-append c (split_lines p).0 (split_lines p).1 b e)
]

module _ {ℓ} {S : Type ℓ} (on_event : S → Text → Text → S × Bool) where
  -- Lines are taken one list behind the other, unless the callback stopped.
  take_lines-append :
      (ls ms : List Text) (s : Scanner) (x : S)
      → take_lines on_event (ls ++ ms) s x
        ≡ proceed
            (take_lines on_event ls s x)
            (λ s' x'. ((s', x'), false))
            (λ s' x'. take_lines on_event ms s' x')
  unfolding take_lines
  take_lines-append [] ms s x = refl
  take_lines-append (l ∷ ls) ms s x =
      after (λ s' x'. take_lines-append ls ms s' x') (take_line on_event l s x)
    where
      after :
          ((s' : Scanner) (x' : S)
            → take_lines on_event (ls ++ ms) s' x'
              ≡ proceed
                  (take_lines on_event ls s' x')
                  (λ u y. ((u, y), false))
                  (λ u y. take_lines on_event ms u y))
          → (q : (Scanner × S) × Bool)
          → proceed q (λ s' x'. ((s', x'), false)) (λ s' x'. take_lines on_event (ls ++ ms) s' x')
            ≡ proceed
                (proceed q (λ s' x'. ((s', x'), false)) (λ s' x'. take_lines on_event ls s' x'))
                (λ s' x'. ((s', x'), false))
                (λ s' x'. take_lines on_event ms s' x')
      after ih ((s', x'), false) = refl
      after ih ((s', x'), true) = ih s' x'

  abbrev with_pending : Text → (Scanner × S) × Bool → (Scanner × S) × Bool
  with_pending r ((s, x), go_on) = ((record s { pending = r }, x), go_on)

  -- The lines are processed without a look at what is pending.
  take_line-pending :
      (l r : Text) (s : Scanner) (x : S)
      → take_line on_event l (record s { pending = r }) x
        ≡ with_pending r (take_line on_event l s x)
  unfolding take_line flush on_line field
  take_line-pending l r s x = ground arith

  take_lines-pending :
      (ls : List Text) (r : Text) (s : Scanner) (x : S)
      → take_lines on_event ls (record s { pending = r }) x
        ≡ with_pending r (take_lines on_event ls s x)
  unfolding take_lines
  take_lines-pending [] r s x = refl
  take_lines-pending (l ∷ ls) r s x =
      ap (λ q. proceed q (λ s' x'. ((s', x'), false)) (λ s' x'. take_lines on_event ls s' x'))
        (take_line-pending l r s x)
      ∙ after (λ s' x'. take_lines-pending ls r s' x') (take_line on_event l s x)
    where
      after :
          ((s' : Scanner) (x' : S)
            → take_lines on_event ls (record s' { pending = r }) x'
              ≡ with_pending r (take_lines on_event ls s' x'))
          → (q : (Scanner × S) × Bool)
          → proceed
              (with_pending r q)
              (λ s' x'. ((s', x'), false))
              (λ s' x'. take_lines on_event ls s' x')
            ≡ with_pending r
                (proceed q (λ s' x'. ((s', x'), false)) (λ s' x'. take_lines on_event ls s' x'))
      after ih ((s', x'), false) = refl
      after ih ((s', x'), true) = ih s' x'

  module _ (a b : Text) (end : Option ReadEnd) (rounds : List Round) where
    -- The scan behind the lines of a read, and behind those of the read that follows.
    abbrev last : (Scanner × S) × Bool → S × Outcome
    last q =
        proceed q (λ s' x'. (x', Outcome.canceled))
          (λ s' x'. at_end on_event end s' x' (scan on_event rounds s' x'))

    scan-two :
        (s : Scanner) (x : S)
        → scan on_event (read a none ∷ read b end ∷ rounds) s x
          ≡ scan on_event (read (a ++ b) end ∷ rounds) s x
    unfolding scan take_bytes
    scan-two s x =
        let la = split_lines (s.pending ++ a) in
        let lb = split_lines (la.1 ++ b) in
        let more = λ (q : (Scanner × S) × Bool).
          proceed q (λ s' x'. (x', Outcome.canceled))
            (λ s' x'. last (take_bytes on_event b s' x')) in
        let split : split_lines (s.pending ++ (a ++ b)) ≡ (la.0 ++ lb.0, lb.1) =
          ap split_lines (sym (append_assoc s.pending a b))
          ∙ split_lines-append (s.pending ++ a) b in
        ap more (take_lines-pending la.0 la.1 s x)
        ∙ meet (take_lines on_event la.0 s x)
        ∙ sym (
            ap (λ q. last (take_lines on_event q.0 (record s { pending = q.1 }) x)) split
            ∙ ap last (take_lines-append la.0 lb.0 (record s { pending = lb.1 }) x)
            ∙ ap
                (λ q. last (
                  proceed q (λ s' x'. ((s', x'), false)) (λ s' x'. take_lines on_event lb.0 s' x')))
                (take_lines-pending la.0 lb.1 s x))
      where
        meet :
            (q : (Scanner × S) × Bool)
            → proceed
                (with_pending (split_lines (s.pending ++ a)).1 q)
                (λ s' x'. (x', Outcome.canceled))
                (λ s' x'. last (take_bytes on_event b s' x'))
              ≡ last (
                  proceed
                    (with_pending (split_lines ((split_lines (s.pending ++ a)).1 ++ b)).1 q)
                    (λ s' x'. ((s', x'), false))
                    (λ s' x'.
                      take_lines on_event
                        (split_lines ((split_lines (s.pending ++ a)).1 ++ b)).0
                        s'
                        x'))
        meet ((s', x'), false) = refl
        meet ((s', x'), true) = refl

  proceed-equal :
      (q : (Scanner × S) × Bool) (stop f g : Scanner → S → S × Outcome)
      → ((s : Scanner) (x : S) → f s x ≡ g s x)
      → proceed q stop f ≡ proceed q stop g
  proceed-equal ((s, x), false) stop f g h = refl
  proceed-equal ((s, x), true) stop f g h = h s x

-- The bytes of several reads.
abbrev pub joined : List Text → Text
joined [] = []
joined (p ∷ ps) = p ++ joined ps

abbrev pub reads : List Text → List Round
reads [] = []
reads (p ∷ ps) = read p none ∷ reads ps

-- A scan does not depend on how reads cut the bytes: while no read ends or fails, what the callback has
-- done and how the scan ends are the same for any reads as for one read of all their bytes.
pub scan-reads {ℓ} :
    {S : Type ℓ} (on_event : S → Text → Text → S × Bool) (ps : List Text) (b : Text)
    (end : Option ReadEnd) (rounds : List Round) (s : Scanner) (x : S)
    → scan on_event (reads ps ++ read b end ∷ rounds) s x
      ≡ scan on_event (read (joined ps ++ b) end ∷ rounds) s x
unfolding scan
scan-reads on_event [] b end rounds s x = refl
scan-reads on_event (p ∷ ps) b end rounds s x =
    proceed-equal on_event (take_bytes on_event p s x) (λ s' x'. (x', Outcome.canceled)) _ _
      (λ s' x'. scan-reads on_event ps b end rounds s' x')
    ∙ scan-two on_event p (joined ps ++ b) end rounds s x
    ∙ ap (λ t. scan on_event (read t end ∷ rounds) s x) (sym (append_assoc p (joined ps) b))
