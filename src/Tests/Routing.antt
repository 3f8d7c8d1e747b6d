-- ===== src/Tests/Routing.antt =====
-- Routing, at one small database.
use pogu.Prelude.{
  zero, suc, ◌++◌, take, drop, get_elem?, ℕ, ◌<◌, ◌≡◌, inl, inr, refl, List, [], ◌∷◌, true, some,
  arith, codes, Perm, All, order_by, cut, eq_text, eq_nocase,
}
use pogu.Store.{KeyRow}
use pogu.Service.RoundRobin.{no_cursors, next_round_robin_cursor, rotated}
use pogu.Service.Routing.Turns.{offered, eligible_keys_fair}
use pogu.Service.Types.{ok, Route}
use pogu.Service.Validate.{valid_provider_prefix}
use pogu.Service.Routing.{
  get_provider, eligible_keys, enabled_keys, resolve_route, resolve_targets, Resolution,
}
use pogu.Service.Routing.Keys.{IsUsableKey, eligible_keys-perm}
use pogu.Service.Routing.Routes.{Names, resolve_route-Names, resolve_route_reaches}
use pogu.Service.Routing.Targets.{IsSafe, resolve_targets-IsSafe}
use pogu.Tests.{openrouter, key_a, key_b, mimo, glm, fast, db}

abbrev both_keys : List KeyRow
both_keys = key_a ∷ key_b ∷ []

both_eligible : (eligible_keys db 1 no_cursors).0 ≡ ok both_keys
unfolding eligible_keys order_by rotated next_round_robin_cursor
both_eligible = refl

key_b_once : (i : ℕ) → get_elem? (enabled_keys db 1) i ≡ some key_b → i ≡ 1
unfolding enabled_keys order_by
key_b_once zero e = absurd (ground (arith, e))
key_b_once (suc zero) e = refl
key_b_once (suc (suc i)) e = cc

-- Of two requests, one is offered the second key first.
eligible_keys_fair_example :
    (k : ℕ) × (k < 2)
    × (offered db 1 k no_cursors ≡ ok (drop 1 (enabled_keys db 1) ++ take 1 (enabled_keys db 1)))
    × (get_elem? (drop 1 (enabled_keys db 1) ++ take 1 (enabled_keys db 1)) 0 ≡ some key_b)
    × ((k' : ℕ) (keys : List KeyRow)
        → k' < 2
        → offered db 1 k' no_cursors ≡ ok keys
        → get_elem? keys 0 ≡ some key_b
        → k' ≡ k)
unfolding get_provider enabled_keys order_by
eligible_keys_fair_example =
    eligible_keys_fair db 1 openrouter no_cursors 1 key_b refl refl (omega arith) refl key_b_once
      (omega arith)

eligible_keys-perm_example : Perm both_keys (enabled_keys db 1) × All (IsUsableKey 1) both_keys
eligible_keys-perm_example = eligible_keys-perm db 1 no_cursors both_keys both_eligible

abbrev to_mimo : Route
to_mimo = record { provider = openrouter; model = mimo }

mimo_resolves : resolve_route db (codes "or/mimo-v2.5") ≡ ok to_mimo
unfolding resolve_route cut eq_text
mimo_resolves = refl

resolve_route-Names_example : Names db (codes "or/mimo-v2.5") to_mimo
resolve_route-Names_example = resolve_route-Names db (codes "or/mimo-v2.5") to_mimo mimo_resolves

openrouter_found : get_provider db 1 ≡ ok openrouter
unfolding get_provider
openrouter_found = refl

or_valid : valid_provider_prefix (codes "or") ≡ true
unfolding valid_provider_prefix
or_valid = refl

resolve_route_reaches_example :
    (r : Route) × (resolve_route db (codes "or/glm-5") ≡ ok r)
    × (r.provider.prefix ≡ codes "or")
    × (r.model.name ≡ codes "glm-5")
resolve_route_reaches_example =
    resolve_route_reaches db openrouter glm (inr (inl refl)) openrouter_found or_valid (λ e. cc)
      refl refl

abbrev fast_targets : Resolution
fast_targets = record {
  targets =
      record { route = to_mimo; keys = both_keys }
      ∷ record { route = record { provider = openrouter; model = glm }; keys = key_b ∷ key_a ∷ [] }
      ∷ [];
  group = some fast;
}

fast_resolves : (resolve_targets db (codes "FAST") no_cursors).0 ≡ ok fast_targets
unfolding resolve_targets cut eq_text eq_nocase order_by rotated next_round_robin_cursor
fast_resolves = refl

resolve_targets-IsSafe_example : IsSafe fast_targets
resolve_targets-IsSafe_example =
    resolve_targets-IsSafe db (codes "FAST") no_cursors fast_targets fast_resolves
