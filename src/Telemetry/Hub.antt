-- ===== src/Telemetry/Hub.antt =====
-- internal/httpapi/monitor_hub.go: the active requests and the channels of the subscribers. An event carries its value
-- for the JSON text of it. A subscription has both
-- ends of its channel: what the channel holds, and what its reader got by subscribing and has received.
pub mod Reader
mod Active
pub mod Views
use pogu.Prelude.{
  ℕ, ◌+◌, ◌<◌, List, [], ◌∷◌, ◌++◌, Option, none, some, Bool, not, ◌==◌, ltb, find, where_,
  update_where, length, if◌then◌else◌, Text, eq_text,
}
use pogu.Telemetry.{MonitoringRecord}

pub record Started : Type 0 where
  pub request_id : Text
  pub ts : ℕ
  pub key_id : Option ℕ
  pub key_name : Text
  pub model : Text
  pub protocol : Text
  pub stream : Bool
  pub provider : Text
  pub upstream_model : Text
  pub resolved_model : Text
  pub group_name : Text

pub record Routed : Type 0 where
  pub request_id : Text
  pub provider : Text
  pub upstream_model : Text
  pub resolved_model : Text
  pub group_name : Text

pub record Streaming : Type 0 where
  pub request_id : Text
  pub ttft_ms : ℕ
  pub served_model : Text

pub data Event : Type 0 where
  started : Started → Event
  routed : Routed → Event
  streaming : Streaming → Event
  finished : MonitoringRecord → Event

pub record Sub : Type 0 where
  pub channel : ℕ
  pub buffer : List Event
  pub snapshot : List Started
  pub received : List Event

pub record Hub : Type 0 where
  pub subs : List Sub
  pub active : List Started

abbrev pub sub_buffer : ℕ
sub_buffer = 256

abbrev pub new_monitor_hub : Hub
new_monitor_hub = record { subs = []; active = [] }

abbrev pub with_id : Text → Started → Bool
with_id id s = eq_text s.request_id id

-- h.active[id]
unfoldable pub active_at : List Started → Text → Option Started
active_at active id = find (with_id id) active

abbrev pub new_sub : ℕ → List Started → Sub
new_sub channel active = record { channel = channel; buffer = []; snapshot = active; received = [] }

unfoldable pub subscribe : Hub → ℕ → Hub
subscribe h channel = record h { subs = h.subs ++ new_sub channel h.active ∷ [] }

unfoldable pub unsubscribe : Hub → ℕ → Hub
unsubscribe h channel = record h { subs = where_ (λ (s : Sub). not (s.channel == channel)) h.subs }

-- The loop of monitoringEvents takes the first event from its channel.
abbrev taken : Sub → List Event → Sub
taken s [] = s
taken s (ev ∷ evs) = record s { buffer = evs; received = s.received ++ ev ∷ [] }

unfoldable pub receive : Hub → ℕ → Hub
receive h channel = record h {
  subs = update_where (λ (s : Sub). s.channel == channel) (λ s. taken s s.buffer) h.subs;
}

-- A subscriber whose channel is full is dropped.
unfoldable pub delivered : Event → List Sub → List Sub
delivered ev [] = []
delivered ev (s ∷ subs) =
    let rest = delivered ev subs in
    if ltb (length s.buffer) sub_buffer
    then record s { buffer = s.buffer ++ ev ∷ [] } ∷ rest
    else rest

unfoldable pub publish : Hub → Event → Hub
unfolding delivered
publish h ev = record h { subs = delivered ev h.subs }

abbrev pub unless_empty : Text → Text → Text
unless_empty new old = if eq_text new [] then old else new

abbrev pub routed_into : Routed → Started → Started
routed_into ev s = record s {
  provider = unless_empty ev.provider s.provider;
  upstream_model = unless_empty ev.upstream_model s.upstream_model;
  resolved_model = unless_empty ev.resolved_model s.resolved_model;
  group_name = unless_empty ev.group_name s.group_name;
}

-- The change of the active requests that a publication makes first, under the lock.
unfoldable pub mark : Event → List Started → List Started
mark (started ev) active = ev ∷ where_ (λ s. not (with_id ev.request_id s)) active
mark (routed ev) [] = []
mark (routed ev) (s ∷ active) =
    let rest = mark (routed ev) active in
    if with_id ev.request_id s then routed_into ev s ∷ active else s ∷ rest
mark (streaming ev) active = active
mark (finished rec) active = where_ (λ s. not (with_id rec.request_id s)) active
