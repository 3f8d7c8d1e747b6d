-- ===== src/Service/Routing.antt =====
-- How a requested model becomes routes and keys: GetProvider, ListProviderKeys, EligibleKeys
-- (internal/service/providers.go, provider_keys.go), ResolveRoute (models.go), ListGroupMembers and
-- ResolveGroupTargets (groups.go), resolveTargets (internal/httpapi/gateway.go).
-- The database answers every query; the cursors are what a resolution changes.
pub mod Keys
pub mod Turns
pub mod Routes
pub mod Targets
use pogu.Prelude.{
  ℕ, ◌≡◌, List, [], ◌∷◌, ◌++◌, Option, none, some, Bool, true, false, ◌&&◌, ◌||◌, not, ◌==◌, ltb,
  Text, if◌then◌else◌, length, where_, find, any, order_by, cut, eq_text, eq_nocase,
}
use pogu.Store.{
  Db, ProviderRow, KeyRow, ModelRow, GroupRow, MemberRow, KeySelection, first, round_robin,
}
use pogu.Service.RoundRobin.{Cursors, Domain, provider, group, next_round_robin_cursor, rotated}
use pogu.Service.Types.{
  Result, ok, err, Error, not_found, unknown_route, no_credentials, no_group_targets, validation,
  Route, guard, or_fail, ◌>>=◌, ◌>>◌,
}
use pogu.Service.Validate.{valid_provider_prefix}

unfoldable pub get_provider : Db → ℕ → Result ProviderRow
get_provider db id = or_fail (find (λ p. p.id == id) db.providers.rows) not_found

unfoldable pub get_model : Db → ℕ → Result ModelRow
get_model db id = or_fail (find (λ m. m.id == id) db.models.rows) not_found

unfoldable pub get_group : Db → ℕ → Result GroupRow
get_group db id = or_fail (find (λ g. g.id == id) db.groups.rows) not_found

-- WHERE provider_id=? ORDER BY sort_order ASC, id ASC
unfoldable pub list_provider_keys : Db → ℕ → List KeyRow
list_provider_keys db id =
    order_by (λ k. k.sort_order) (λ k. k.id) (where_ (λ k. k.provider_id == id) db.keys.rows)

unfoldable pub enabled_keys : Db → ℕ → List KeyRow
unfolding list_provider_keys
enabled_keys db id = where_ (λ k. k.enabled) (list_provider_keys db id)

-- The rotation that EligibleKeys and ResolveGroupTargets make under `round_robin`.
unfoldable pub select {ℓ} :
    {A : Type ℓ} → KeySelection → Domain → ℕ → List A → Cursors → List A × Cursors
select first d id xs cursors = (xs, cursors)
select round_robin d id xs cursors =
    if ltb 1 (length xs)
    then (
      rotated (next_round_robin_cursor d id (length xs) cursors).0 xs,
      (next_round_robin_cursor d id (length xs) cursors).1,
    )
    else (xs, cursors)

keys_of : Db → ProviderRow → Cursors → List KeyRow × Cursors
unfolding enabled_keys select
keys_of db p cursors = select p.key_selection provider p.id (enabled_keys db p.id) cursors

unfoldable pub eligible_keys : Db → ℕ → Cursors → Result (List KeyRow) × Cursors
unfolding get_provider keys_of
eligible_keys db id cursors = elim (get_provider db id) [
  | ok p ↦ (ok (keys_of db p cursors).0, (keys_of db p cursors).1)
  | err e ↦ (err e, cursors)
]

-- JOIN providers p ON p.id=m.provider_id WHERE p.prefix=? AND m.name=? AND p.enabled=1 AND m.enabled=1
unfoldable pub serves : Db → Text → Text → ModelRow → Bool
serves db prefix name m = elim (find (λ p. p.id == m.provider_id) db.providers.rows) [
  | none ↦ false
  | some p ↦ eq_text p.prefix prefix && eq_text m.name name && p.enabled && m.enabled
]

unfoldable pub resolve_parts : Db → Text → Text → Result Route
unfolding serves get_provider
resolve_parts db prefix name = do
  m ← or_fail (find (serves db prefix name) db.models.rows) unknown_route
  p ← get_provider db m.provider_id
  ok (record { provider = p; model = m })

-- ResolveRoute
unfoldable pub resolve_route : Db → Text → Result Route
unfolding resolve_parts
resolve_route db public_id =
    let (prefix, name, found) = cut b'/' public_id in
    do
      guard (found && not (eq_text prefix []) && not (eq_text name [])) unknown_route
      resolve_parts db prefix name

-- gm.PublicID; a member whose model or provider is gone drops out of the join.
unfoldable pub member_public_id : Db → MemberRow → Option Text
member_public_id db gm = elim (find (λ m. m.id == gm.model_id) db.models.rows) [
  | none ↦ none
  | some m ↦ elim (find (λ p. p.id == m.provider_id) db.providers.rows) [
    | none ↦ none
    | some p ↦ some (p.prefix ++ b'/' ∷ m.name)
  ]
]

-- ListGroupMembers: GetGroup, and WHERE gm.group_id=? ORDER BY gm.position, gm.id
unfoldable pub list_members : Db → ℕ → Result (List MemberRow)
unfolding get_group
list_members db id = do
  get_group db id
  ok (order_by (λ gm. gm.position) (λ gm. gm.id) (where_ (λ gm. gm.group_id == id) db.members.rows))

-- groupCandidate, and routeTarget of the gateway
pub record Target : Type 0 where
  pub route : Route
  pub keys : List KeyRow

-- What resolveTargets returns: the targets, and the group where the model names one.
pub record Resolution : Type 0 where
  pub targets : List Target
  pub group : Option GroupRow

member_route : Db → MemberRow → Result Route
unfolding member_public_id resolve_route
member_route db gm =
    if gm.enabled
    then (do public_id ← or_fail (member_public_id db gm) unknown_route; resolve_route db public_id)
    else err unknown_route

usable_target : Route → Result (List KeyRow) → Option Target
usable_target route (err e) = none
usable_target route (ok []) = none
usable_target route (ok (k ∷ ks)) = some (record { route = route; keys = k ∷ ks })

-- One round of the loop over the members.
candidate : Db → MemberRow → Cursors → Option Target × Cursors
unfolding member_route eligible_keys usable_target
candidate db gm cursors = elim (member_route db gm) [
  | err e ↦ (none, cursors)
  | ok route ↦
      let (keys, cursors') = eligible_keys db route.provider.id cursors in
      (usable_target route keys, cursors')
]

candidates : Db → List MemberRow → Cursors → List Target × Cursors
unfolding candidate
candidates db [] cursors = ([], cursors)
candidates db (gm ∷ gms) cursors =
    let (found, cursors') = candidate db gm cursors in
    let (rest, cursors'') = candidates db gms cursors' in
    elim found [ none ↦ (rest, cursors'') | some t ↦ (t ∷ rest, cursors'') ]

finish_group : GroupRow → List Target → Cursors → Result Resolution × Cursors
unfolding select
finish_group g [] cursors = (err no_group_targets, cursors)
finish_group g (t ∷ ts) cursors =
    let (targets, cursors') = select g.selection group g.id (t ∷ ts) cursors in
    (ok (record { targets = targets; group = some g }), cursors')

-- ResolveGroupTargets
unfoldable pub resolve_group_targets : Db → Text → Cursors → Result Resolution × Cursors
unfolding candidates finish_group list_members
resolve_group_targets db name cursors = elim (find (λ g. eq_nocase g.name name) db.groups.rows) [
  | none ↦ (err unknown_route, cursors)
  | some g ↦
      if g.enabled
      then (elim (list_members db g.id) [
        | err e ↦ (err e, cursors)
        | ok members ↦
            let (found, cursors') = candidates db members cursors in finish_group g found cursors'
      ])
      else (err unknown_route, cursors)
]

direct_target : Route → Result (List KeyRow) → Result Resolution
direct_target route (err e) = err e
direct_target route (ok []) = err no_credentials
direct_target route (ok (k ∷ ks)) =
    ok (record { targets = record { route = route; keys = k ∷ ks } ∷ []; group = none })

resolve_direct : Db → Text → Cursors → Result Resolution × Cursors
unfolding resolve_route eligible_keys direct_target
resolve_direct db model cursors = elim (resolve_route db model) [
  | err e ↦ (err e, cursors)
  | ok route ↦
      let (keys, cursors') = eligible_keys db route.provider.id cursors in
      (direct_target route keys, cursors')
]

-- resolveTargets; `validation` stands for the error "model must be …".
unfoldable pub resolve_targets : Db → Text → Cursors → Result Resolution × Cursors
unfolding resolve_direct resolve_group_targets
resolve_targets db model cursors =
    let (prefix, rest, found) = cut b'/' model in
    if found
    then (if not (eq_text prefix []) && not (eq_text rest []) && valid_provider_prefix prefix
        then resolve_direct db model cursors
        else (err validation, cursors))
    else resolve_group_targets db model cursors
