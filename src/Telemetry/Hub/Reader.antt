-- ===== src/Telemetry/Hub/Reader.antt =====
-- How a reader of the events of internal/httpapi/monitor_hub.go follows a request: a request that it has already is not
-- started again, and an unknown one is not routed (ui/src/lib/monitor.svelte.ts).
use pogu.Prelude.{
  ◌≡◌, ◌≢◌, refl, sym, ap, ◌∙◌, List, [], ◌∷◌, ◌++◌, Option, none, some, All, All-append,
  if◌then◌else◌, Text, eq_text, eq_text_iff, arith, Bool-cases, inl, inr,
}
use pogu.Telemetry.Hub.{
  Started, Event, started, routed, streaming, finished, unless_empty, routed_into,
}

abbrev pub request_of : Event → Text
request_of (started ev) = ev.request_id
request_of (routed ev) = ev.request_id
request_of (streaming ev) = ev.request_id
request_of (finished rec) = rec.request_id

-- How a reader takes an event, for the request that it is about: a request that it has already is not started
-- again, an unknown one is not routed.
abbrev pub read_event : Event → Option Started → Option Started
read_event (started ev) none = some ev
read_event (started ev) (some s) = some s
read_event (routed ev) none = none
read_event (routed ev) (some s) = some (routed_into ev s)
read_event (streaming ev) x = x
read_event (finished rec) x = none

abbrev pub at_request : Text → Event → Option Started → Option Started
at_request id ev x = if eq_text (request_of ev) id then read_event ev x else x

-- What a reader knows of a request behind some events.
abbrev pub told : Text → List Event → Option Started → Option Started
told id [] x = x
told id (ev ∷ evs) x = told id evs (at_request id ev x)

abbrev pub Apart : Event → List Event → Type 0
Apart ev evs = All (λ other. request_of other ≢ request_of ev) evs

pub told-append :
    (id : Text) (xs ys : List Event) (x : Option Started)
    → told id (xs ++ ys) x ≡ told id ys (told id xs x)
told-append id [] ys x = refl
told-append id (ev ∷ xs) ys x = told-append id xs ys (at_request id ev x)

at_request-other :
    (id : Text) (ev : Event) (x : Option Started) → request_of ev ≢ id → at_request id ev x ≡ x
at_request-other id ev x h = ground (arith, eq_text_iff (request_of ev) id)

-- Events of other requests do not matter.
told-Apart :
    (id : Text) (ev : Event) (evs : List Event) (x : Option Started)
    → Apart ev evs
    → request_of ev ≡ id
    → told id evs x ≡ x
told-Apart id ev [] x a e = refl
told-Apart id ev (other ∷ evs) x a e =
    ap (told id evs) (at_request-other id other x (λ o. a.0 (o ∙ sym e)))
    ∙ told-Apart id ev evs x a.1 e

pub at_request-told :
    (id : Text) (ev : Event) (evs : List Event) (x : Option Started)
    → Apart ev evs
    → told id evs (at_request id ev x) ≡ at_request id ev (told id evs x)
at_request-told id ev evs x a = elim (Bool-cases (eq_text (request_of ev) id)) [
  | inl e ↦
      let same : request_of ev ≡ id = (eq_text_iff (request_of ev) id).0 e in
      told-Apart id ev evs (at_request id ev x) a same
      ∙ ap (at_request id ev) (sym (told-Apart id ev evs x a same))
  | inr e ↦ rw e refl
]

unless_empty_twice :
    (new old : Text) → unless_empty new (unless_empty new old) ≡ unless_empty new old
unless_empty_twice new old = elim (Bool-cases (eq_text new [])) [
  | inl e ↦ rw e refl
  | inr e ↦ rw e refl
]

-- To take an event twice is to take it once.
read_event_twice :
    (ev : Event) (x : Option Started) → read_event ev (read_event ev x) ≡ read_event ev x
read_event_twice (started ev) none = refl
read_event_twice (started ev) (some s) = refl
read_event_twice (routed ev) none = refl
read_event_twice (routed ev) (some s) = ground (
  arith,
  unless_empty_twice ev.provider s.provider,
  unless_empty_twice ev.upstream_model s.upstream_model,
  unless_empty_twice ev.resolved_model s.resolved_model,
  unless_empty_twice ev.group_name s.group_name,
)
read_event_twice (streaming ev) x = refl
read_event_twice (finished rec) x = refl

at_request_twice :
    (id : Text) (ev : Event) (x : Option Started)
    → at_request id ev (at_request id ev x) ≡ at_request id ev x
at_request_twice id ev x = elim (Bool-cases (eq_text (request_of ev) id)) [
  | inl e ↦ rw e (read_event_twice ev x)
  | inr e ↦ rw e refl
]

abbrev pub Distinct : List Event → Type 0
Distinct [] = Unit
Distinct (ev ∷ evs) = Apart ev evs × Distinct evs

pub Distinct-snoc :
    (ev : Event) (evs : List Event) → Distinct evs → Apart ev evs → Distinct (evs ++ ev ∷ [])
Distinct-snoc ev [] d a = (tt, tt)
Distinct-snoc ev (other ∷ evs) d a = (
  All-append (λ e. request_of e ≢ request_of other) evs (ev ∷ []) d.0 ((λ e. a.0 (sym e)), tt),
  Distinct-snoc ev evs d.1 a.1,
)

-- The part of a list before an event, and the list without it.
All-cut {κ} :
    (P : Event → Type κ) (xs ys : List Event) (ev : Event)
    → All P (xs ++ ev ∷ ys)
    → P ev × All P (xs ++ ys)
All-cut P [] ys ev a = a
All-cut P (x ∷ xs) ys ev a = let (p, rest) = All-cut P xs ys ev a.1 in (p, (a.0, rest))

pub Distinct-cut :
    (ev : Event) (before behind : List Event)
    → Distinct (before ++ ev ∷ behind)
    → Apart ev before × Distinct (before ++ behind)
Distinct-cut ev [] behind d = (tt, d.1)
Distinct-cut ev (other ∷ before) behind d =
    let (ne, rest) = All-cut (λ e. request_of e ≢ request_of other) before behind ev d.0 in
    let (apart, distinct) = Distinct-cut ev before behind d.1 in
    (((λ e. ne (sym e)), apart), (rest, distinct))

-- The events on the way, told to one who knows them, tell nothing.
pub told_twice :
    (id : Text) (evs : List Event) (x : Option Started)
    → Distinct evs
    → told id evs (told id evs x) ≡ told id evs x
told_twice id [] x d = refl
told_twice id (ev ∷ evs) x d =
    ap (told id evs) (
      sym (at_request-told id ev evs (at_request id ev x) d.0)
      ∙ ap (told id evs) (at_request_twice id ev x))
    ∙ told_twice id evs (at_request id ev x) d.1

pub told-moved :
    (id : Text) (ev : Event) (before behind : List Event) (x : Option Started)
    → Apart ev before
    → told id (ev ∷ (before ++ behind)) x ≡ told id (before ++ ev ∷ behind) x
told-moved id ev before behind x apart =
    told-append id before behind (at_request id ev x)
    ∙ ap (told id behind) (at_request-told id ev before x apart)
    ∙ sym (told-append id before (ev ∷ behind) x)
