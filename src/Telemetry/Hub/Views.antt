-- ===== src/Telemetry/Hub/Views.antt =====
-- The publications of internal/httpapi/monitor_hub.go under any interleaving of the requests: what a subscriber is told
-- against the active requests. A publication has two critical sections, the change of the active requests and
-- the delivery to the channels; between them it is under way.
use pogu.Prelude.{
  ℕ, ◌≤◌, ◌≡◌, refl, sym, ap, ◌∙◌, List, [], ◌∷◌, ◌++◌, Option, none, not, ◌==◌, ltb, update_where,
  length, length-append, All, All-append, All-where_, Text, arith, append_assoc, Bool-cases, inl,
  inr,
}
use pogu.Telemetry.Hub.{
  Started, Event, Sub, Hub, sub_buffer, new_monitor_hub, active_at, new_sub, subscribe, unsubscribe,
  taken, receive, delivered, publish, mark,
}
use pogu.Telemetry.Hub.Reader.{
  at_request, told, Apart, Distinct, told-append, Distinct-snoc, Distinct-cut, told_twice,
  told-moved,
}
use pogu.Telemetry.Hub.Active.{IsNew, active_at-mark}

pub record System : Type 0 where
  pub hub : Hub
  pub under_way : List Event

pub data Step : System → System → Type 0 where
  marks :
      (s : System) (ev : Event)
      → Apart ev s.under_way
      → IsNew ev s.hub
      → Step s (record {
        hub = record s.hub { active = mark ev s.hub.active };
        under_way = s.under_way ++ ev ∷ [];
      })
  delivers :
      (h : Hub) (before behind : List Event) (ev : Event)
      → Step
          (record { hub = h; under_way = before ++ ev ∷ behind })
          (record { hub = publish h ev; under_way = before ++ behind })
  subscribes : (s : System) (channel : ℕ) → Step s (record s { hub = subscribe s.hub channel })
  unsubscribes : (s : System) (channel : ℕ) → Step s (record s { hub = unsubscribe s.hub channel })
  receives : (s : System) (channel : ℕ) → Step s (record s { hub = receive s.hub channel })

abbrev pub start : System
start = record { hub = new_monitor_hub; under_way = [] }

pub data Reached : System → Type 0 where
  here : Reached start
  next : {s t : System} → Reached s → Step s t → Reached t

-- What the reader of a subscription knows of a request, once it has what its channel holds and some events more.
abbrev pub knows : Text → List Event → Sub → Option Started
knows id evs s = told id (s.received ++ (s.buffer ++ evs)) (active_at s.snapshot id)

abbrev pub IsUpToDate : List Event → List Started → Sub → Type 0
IsUpToDate evs active s =
    (length s.buffer ≤ sub_buffer) × ((id : Text) → knows id evs s ≡ active_at active id)

record IsSound (s : System) : Type 0 where
  distinct : Distinct s.under_way
  settled : (id : Text) → (x : Option Started) × (told id s.under_way x ≡ active_at s.hub.active id)
  current : All (IsUpToDate s.under_way s.hub.active) s.hub.subs

knows-append :
    (id : Text) (evs more : List Event) (s : Sub)
    → knows id (evs ++ more) s ≡ told id more (knows id evs s)
knows-append id evs more s =
    ap (λ l. told id (s.received ++ l) (active_at s.snapshot id))
      (sym (append_assoc s.buffer evs more))
    ∙ ap (λ l. told id l (active_at s.snapshot id))
        (sym (append_assoc s.received (s.buffer ++ evs) more))
    ∙ told-append id (s.received ++ (s.buffer ++ evs)) more (active_at s.snapshot id)

All-map {κ} :
    (P Q : Sub → Type κ) → ((s : Sub) → P s → Q s) → (subs : List Sub) → All P subs → All Q subs
All-map P Q f [] a = tt
All-map P Q f (s ∷ subs) a = (f s a.0, All-map P Q f subs a.1)

marks-IsSound :
    (s : System) (ev : Event)
    → Apart ev s.under_way
    → IsNew ev s.hub
    → IsSound s
    → IsSound (record {
      hub = record s.hub { active = mark ev s.hub.active };
      under_way = s.under_way ++ ev ∷ [];
    })
marks-IsSound s ev apart fresh i = record {
  distinct = Distinct-snoc ev s.under_way i.distinct apart;
  settled = λ id.
      let (x, e) = i.settled id in
      (
        x,
        told-append id s.under_way (ev ∷ []) x
            ∙ ap (at_request id ev) e
            ∙ sym (active_at-mark id ev s.hub fresh),
      );
  current =
      All-map (IsUpToDate s.under_way s.hub.active)
        (IsUpToDate (s.under_way ++ ev ∷ []) (mark ev s.hub.active))
        (λ sub u. (
          u.0,
          λ id.
              knows-append id s.under_way (ev ∷ []) sub
              ∙ ap (at_request id ev) (u.1 id)
              ∙ sym (active_at-mark id ev s.hub fresh),
        ))
        s.hub.subs i.current;
}

-- A delivery keeps what a subscriber will know, and drops the ones with a full channel.
delivered-current :
    (ev : Event) (before behind : List Event) (active : List Started) (subs : List Sub)
    → Apart ev before
    → All (IsUpToDate (before ++ ev ∷ behind) active) subs
    → All (IsUpToDate (before ++ behind) active) (delivered ev subs)
unfolding delivered
delivered-current ev before behind active [] apart a = tt
delivered-current ev before behind active (s ∷ subs) apart a =
    elim (Bool-cases (ltb (length s.buffer) sub_buffer)) [
      | inl room ↦ rw room (
        (
          ground (arith, room, length-append s.buffer (ev ∷ [])),
          λ id.
              ap (λ l. told id (s.received ++ l) (active_at s.snapshot id))
                (append_assoc s.buffer (ev ∷ []) (before ++ behind))
              ∙ knows-append id [] (ev ∷ (before ++ behind)) s
              ∙ told-moved id ev before behind (knows id [] s) apart
              ∙ sym (knows-append id [] (before ++ ev ∷ behind) s)
              ∙ a.0.1 id,
        ),
        delivered-current ev before behind active subs apart a.1,
      )
      | inr full ↦ rw full (delivered-current ev before behind active subs apart a.1)
    ]

delivers-IsSound :
    (h : Hub) (before behind : List Event) (ev : Event)
    → IsSound (record { hub = h; under_way = before ++ ev ∷ behind })
    → IsSound (record { hub = publish h ev; under_way = before ++ behind })
unfolding publish
delivers-IsSound h before behind ev i =
    let (apart, distinct) = Distinct-cut ev before behind i.distinct in
    record {
      distinct = distinct;
      settled = λ id.
          let (x, e) = i.settled id in
          (at_request id ev x, told-moved id ev before behind x apart ∙ e);
      current = delivered-current ev before behind h.active h.subs apart i.current;
    }

-- A new subscriber has the snapshot; the events under way are in it already.
subscribes-IsSound :
    (s : System) (channel : ℕ) → IsSound s → IsSound (record s { hub = subscribe s.hub channel })
unfolding subscribe
subscribes-IsSound s channel i = record {
  distinct = i.distinct;
  settled = i.settled;
  current =
      All-append (IsUpToDate s.under_way s.hub.active) s.hub.subs
        (new_sub channel s.hub.active ∷ []) i.current
        (
          (
            omega arith,
            λ id.
                let (x, e) = i.settled id in
                ap (told id s.under_way) (sym e) ∙ told_twice id s.under_way x i.distinct ∙ e,
          ),
          tt,
        );
}

unsubscribes-IsSound :
    (s : System) (channel : ℕ) → IsSound s → IsSound (record s { hub = unsubscribe s.hub channel })
unfolding unsubscribe
unsubscribes-IsSound s channel i = record {
  distinct = i.distinct;
  settled = i.settled;
  current =
      All-where_ (IsUpToDate s.under_way s.hub.active) (λ (sub : Sub). not (sub.channel == channel))
        s.hub.subs i.current;
}

taken-IsUpToDate :
    (evs : List Event) (active : List Started) (s : Sub) (buffer : List Event)
    → s.buffer ≡ buffer
    → IsUpToDate evs active s
    → IsUpToDate evs active (taken s buffer)
taken-IsUpToDate evs active s [] e u = u
taken-IsUpToDate evs active s (ev ∷ buffer) e u = (
  omega (arith, ap length e, u.0),
  λ id.
      ap (λ l. told id l (active_at s.snapshot id))
        (append_assoc s.received (ev ∷ []) (buffer ++ evs)
          ∙ ap (λ l. s.received ++ (l ++ evs)) (sym e))
      ∙ u.1 id,
)

received-current :
    (evs : List Event) (active : List Started) (channel : ℕ) (subs : List Sub)
    → All (IsUpToDate evs active) subs
    → All
        (IsUpToDate evs active)
        (update_where (λ (s : Sub). s.channel == channel) (λ s. taken s s.buffer) subs)
received-current evs active channel [] a = tt
received-current evs active channel (s ∷ subs) a = elim (Bool-cases (s.channel == channel)) [
  | inl e ↦ rw e (
    taken-IsUpToDate evs active s s.buffer refl a.0,
    received-current evs active channel subs a.1,
  )
  | inr e ↦ rw e (a.0, received-current evs active channel subs a.1)
]

receives-IsSound :
    (s : System) (channel : ℕ) → IsSound s → IsSound (record s { hub = receive s.hub channel })
unfolding receive
receives-IsSound s channel i = record {
  distinct = i.distinct;
  settled = i.settled;
  current = received-current s.under_way s.hub.active channel s.hub.subs i.current;
}

Step-IsSound : {s t : System} → Step s t → IsSound s → IsSound t
Step-IsSound (marks s ev apart fresh) i = marks-IsSound s ev apart fresh i
Step-IsSound (delivers h before behind ev) i = delivers-IsSound h before behind ev i
Step-IsSound (subscribes s channel) i = subscribes-IsSound s channel i
Step-IsSound (unsubscribes s channel) i = unsubscribes-IsSound s channel i
Step-IsSound (receives s channel) i = receives-IsSound s channel i

Reached-IsSound : {s : System} → Reached s → IsSound s
unfolding active_at
Reached-IsSound here = record { distinct = tt; settled = λ id. (none, refl); current = tt }
Reached-IsSound (next r st) = Step-IsSound st (Reached-IsSound r)

-- However the publications of the requests interleave with each other and with the subscribers: no channel holds more
-- than 256 events, and what a subscriber has been told, with what its channel holds and what is still under way,
-- gives for each request exactly what the active requests of the hub say of it, if the events of one request are
-- published one at a time and no request is started while it is active.
pub Reached-IsUpToDate :
    {s : System} → Reached s → All (IsUpToDate s.under_way s.hub.active) s.hub.subs
Reached-IsUpToDate r = (Reached-IsSound r).current
