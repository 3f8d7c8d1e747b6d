-- ===== src/Telemetry/Hub/Active.antt =====
-- The active requests of internal/httpapi/monitor_hub.go change by an event as a reader's do.
use pogu.Prelude.{
  ◌≡◌, ◌≢◌, refl, sym, ap, subst, List, [], ◌∷◌, none, not, find, where_, Text, eq_text,
  eq_text_iff, arith, Bool-cases, inl, inr,
}
use pogu.Telemetry.Hub.{
  Started, Routed, Event, started, routed, streaming, finished, Hub, with_id, active_at, mark,
}
use pogu.Telemetry.Hub.Reader.{read_event, at_request}

-- A request is published by its own goroutine, one event at a time, and it is started once.
abbrev pub IsNew : Event → Hub → Type 0
IsNew (started ev) h = active_at h.active ev.request_id ≡ none
IsNew _ h = Unit

find-removed :
    (id : Text) (active : List Started)
    → find (with_id id) (where_ (λ s. not (with_id id s)) active) ≡ none
find-removed id [] = refl
find-removed id (s ∷ active) = ground (arith, find-removed id active)

find-removed_other :
    (id j : Text) (active : List Started)
    → j ≢ id
    → find (with_id id) (where_ (λ s. not (with_id j s)) active) ≡ find (with_id id) active
find-removed_other id j [] h = refl
find-removed_other id j (s ∷ active) h = ground (
  arith,
  find-removed_other id j active h,
  eq_text_iff s.request_id id,
  eq_text_iff s.request_id j,
)

active_at-routed :
    (id : Text) (ev : Routed) (active : List Started)
    → active_at (mark (routed ev) active) id ≡ at_request id (routed ev) (active_at active id)
unfolding active_at mark
active_at-routed id ev [] = ground arith
active_at-routed id ev (s ∷ active) = ground (
  arith,
  active_at-routed id ev active,
  eq_text_iff s.request_id id,
  eq_text_iff ev.request_id id,
  eq_text_iff s.request_id ev.request_id,
)

pub active_at-mark :
    (id : Text) (ev : Event) (h : Hub)
    → IsNew ev h
    → active_at (mark ev h.active) id ≡ at_request id ev (active_at h.active id)
unfolding active_at mark
active_at-mark id (started ev) h fresh = elim (Bool-cases (eq_text ev.request_id id)) [
  | inl e ↦
      let same : ev.request_id ≡ id = (eq_text_iff ev.request_id id).0 e in
      rw e (
        ap (read_event (started ev))
          (sym (subst (λ j. find (with_id j) h.active ≡ none) same fresh)))
  | inr e ↦ rw e (
      find-removed_other id ev.request_id h.active
        (λ same. ground (arith, e, same, eq_text_iff ev.request_id id)))
]
active_at-mark id (routed ev) h fresh = active_at-routed id ev h.active
active_at-mark id (streaming ev) h fresh = ground arith
active_at-mark id (finished rec) h fresh = elim (Bool-cases (eq_text rec.request_id id)) [
  | inl e ↦
      let same : rec.request_id ≡ id = (eq_text_iff rec.request_id id).0 e in
      rw e (
        subst (λ j. find (with_id id) (where_ (λ s. not (with_id j s)) h.active) ≡ none) (sym same)
          (find-removed id h.active))
  | inr e ↦ rw e (
      find-removed_other id rec.request_id h.active
        (λ same. ground (arith, e, same, eq_text_iff rec.request_id id)))
]
