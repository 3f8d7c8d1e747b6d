-- ===== src/Telemetry/Monitoring/Series.antt =====
-- TimeSeries of internal/telemetry/monitoring.go: its loop ends, and each bucket has the records of its time.
use pogu.Prelude.{
  ℕ, zero, suc, ◌+◌, ◌-◌, ◌<◌, ◌≤◌, ◌≡◌, refl, ap, ◌∙◌, inl, inr, List, [], ◌∷◌, Option, none, some,
  Bool, true, false, ◌==◌, ltb, find, where_, if◌then◌else◌, Text, arith, Bool-cases,
}
use pogu.Telemetry.{MonitoringRecord}
use pogu.Telemetry.Recorder.{Log}
use pogu.Telemetry.Monitoring.{Scope, window_records}
use pogu.Telemetry.Monitoring.Ranges.{
  Range, daily, monthly, yearly, Calendar, window, bucketize, next_bucket,
}
use pogu.Telemetry.Monitoring.Figures.{
  Counts, no_counts, observe, observe_all, finish, Bucket, FinishedBucket, observe_at, spans_of,
  bucket_at, buckets, time_series,
}

-- What the spans have counted at a time.
abbrev counts_at : List Bucket → ℕ → Counts
counts_at spans bt = elim (find (λ (b : Bucket). b.t == bt) spans) [
  | some b ↦ b.counts
  | none ↦ no_counts
]

counts_at-observe_at :
    (bt bt' : ℕ) (r : MonitoringRecord) (spans : List Bucket)
    → counts_at (observe_at bt' r spans) bt
      ≡ (if bt' == bt then observe r (counts_at spans bt) else counts_at spans bt)
unfolding observe_at
counts_at-observe_at bt bt' r [] = elim (Bool-cases (bt' == bt)) [
  | inl e ↦ rw (e, counts_at, observe_at) refl
  | inr e ↦ rw (e, counts_at, observe_at) refl
]
counts_at-observe_at bt bt' r (b ∷ spans) = elim (Bool-cases (b.t == bt')) [
  | inl e ↦ elim (Bool-cases (b.t == bt)) [
    | inl e2 ↦
        let here : (bt' == bt) ≡ true = ground (arith, e, e2) in
        rw (e, e2, here, counts_at, observe_at) refl
    | inr e2 ↦
        let other : (bt' == bt) ≡ false = ground (arith, e, e2) in
        rw (e, e2, other, counts_at, observe_at) refl
  ]
  | inr e ↦ elim (Bool-cases (b.t == bt)) [
    | inl e2 ↦
        let other : (bt' == bt) ≡ false = ground (arith, e, e2) in
        rw (e, e2, other, counts_at, observe_at) refl
    | inr e2 ↦ rw (e, e2, counts_at, observe_at) (counts_at-observe_at bt bt' r spans)
  ]
]

-- The days of AddDate are ahead.
abbrev pub IsAhead : Calendar → Type 0
IsAhead c = (t : ℕ) → (t < c.add_date 0 1 0 t) × (t < c.add_date 0 0 1 t)

module _ (c : Calendar) (rng : Range) where
  -- The records whose bucket is at a time.
  abbrev pub records_at : ℕ → List MonitoringRecord → List MonitoringRecord
  records_at bt recs = where_ (λ (r : MonitoringRecord). bucketize c rng r.ts == bt) recs

  counts_at-spans_of :
      (bt : ℕ) (recs : List MonitoringRecord) (spans : List Bucket)
      → counts_at (spans_of c rng recs spans) bt
        ≡ observe_all (records_at bt recs) (counts_at spans bt)
  unfolding spans_of observe_all
  counts_at-spans_of bt [] spans = refl
  counts_at-spans_of bt (r ∷ recs) spans =
      counts_at-spans_of bt recs (observe_at (bucketize c rng r.ts) r spans)
      ∙ ap (observe_all (records_at bt recs))
          (counts_at-observe_at bt (bucketize c rng r.ts) r spans)
      ∙ moved (bucketize c rng r.ts == bt)
    where
      moved :
          (b : Bool)
          → observe_all
              (records_at bt recs)
              (if b then observe r (counts_at spans bt) else counts_at spans bt)
            ≡ observe_all
                (if b then r ∷ records_at bt recs else records_at bt recs)
                (counts_at spans bt)
      moved true = refl
      moved false = refl

  bucket_at_lem :
      (bt : ℕ) (spans : List Bucket)
      → bucket_at c rng spans bt ≡ record { t = bt; figures = finish (counts_at spans bt) }
  bucket_at_lem bt [] = refl
  bucket_at_lem bt (b ∷ spans) = elim (Bool-cases (b.t == bt)) [
    | inl e ↦
        let same : b.t ≡ bt = ground (arith, e) in
        rw (e, bucket_at, counts_at) (ap (λ t. record { t = t; figures = finish b.counts }) same)
    | inr e ↦ rw (e, bucket_at, counts_at) (bucket_at_lem bt spans)
  ]

  -- The buckets from a time on: one behind the other up to the end, each with the figures of its records.
  abbrev pub IsSeries : ℕ → List MonitoringRecord → ℕ → List FinishedBucket → Type 0
  IsSeries end_ recs bt [] = end_ < bt
  IsSeries end_ recs bt (b ∷ out) =
      (bt ≤ end_)
      × (b ≡ record { t = bt; figures = finish (observe_all (records_at bt recs) no_counts) })
      × IsSeries end_ recs (next_bucket c bt rng) out

  next_bucket_later : IsAhead c → (t : ℕ) → t < next_bucket c t rng
  unfolding next_bucket
  next_bucket_later ahead t = later rng
    where
      later : (r : Range) → t < next_bucket c t r
      later daily = omega arith
      later monthly = (ahead t).1
      later yearly = (ahead t).0

  buckets-IsSeries :
      IsAhead c
      → (end_ : ℕ) (recs : List MonitoringRecord) (fuel bt : ℕ) → end_ < bt + fuel
      → (out : List FinishedBucket) × (buckets c rng (suc fuel) (spans_of c rng recs []) end_ bt
          ≡ some out)
        × IsSeries end_ recs bt out
  unfolding buckets
  buckets-IsSeries ahead end_ recs zero bt enough =
      let past : ltb end_ bt ≡ true = ground (arith, enough) in
      ([], rw past refl, omega (arith, enough))
  buckets-IsSeries ahead end_ recs (suc fuel) bt enough = elim (Bool-cases (ltb end_ bt)) [
    | inl past ↦ ([], rw past refl, ground (arith, past))
    | inr here ↦
        let (out, e, series) =
          buckets-IsSeries ahead end_ recs fuel (next_bucket c bt rng)
            (omega (arith, next_bucket_later ahead bt, enough)) in
        (
          bucket_at c rng (spans_of c rng recs []) bt ∷ out,
          rw (here, e) refl,
          (
            ground (arith, here),
            bucket_at_lem bt (spans_of c rng recs [])
                ∙ ap (λ n. record { t = bt; figures = finish n }) (counts_at-spans_of bt recs []),
            series,
          ),
        )
  ]

  -- TimeSeries returns, where AddDate by a month and by a day leads on: its loop ends within the fuel, its buckets begin
  -- with the one of the start and follow one another up to the end of the window, and each has the figures of exactly the
  -- records in the window whose bucket is at its time.
  pub time_series-IsSeries :
      (key_name : ℕ → Option Text) (time_lt : ℕ → ℕ → Bool) (id_lt : Text → Text → Bool)
      → IsAhead c
      → (now : ℕ) (sc : Scope) (l : Log)
      → (out : List FinishedBucket) × (time_series c rng key_name time_lt id_lt now sc l ≡ some out)
        × IsSeries
            (window c rng now).end_
            (window_records key_name time_lt id_lt
              (window c rng now).start
              (window c rng now).end_
              sc
              l)
            (bucketize c rng (window c rng now).start)
            out
  unfolding time_series
  time_series-IsSeries key_name time_lt id_lt ahead now sc l =
      buckets-IsSeries ahead (window c rng now).end_
        (window_records key_name time_lt id_lt (window c rng now).start (window c rng now).end_ sc
          l)
        (suc ((window c rng now).end_ - bucketize c rng (window c rng now).start))
        (bucketize c rng (window c rng now).start) (omega arith)
