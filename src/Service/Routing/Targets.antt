-- ===== src/Service/Routing/Targets.antt =====
-- What the gateway gets from resolveTargets.
use pogu.Prelude.{
  ◌≡◌, ◌≢◌, refl, sym, ◌∙◌, List, [], ◌∷◌, Option, none, some, true, arith, subst, Text, All, cut,
  find, eq_nocase, some-eq-some, Option-cases, Bool-cases, inl, inr,
}
use pogu.Store.{Db, KeyRow, GroupRow, MemberRow}
use pogu.Service.RoundRobin.{Cursors, group}
use pogu.Service.Types.{
  Result, ok, err, Error, Route, ok-injective, Result-cases, or_fail, >>=-eq-ok, unknown_route,
}
use pogu.Service.Routing.{
  Target, Resolution, resolve_route, eligible_keys, member_route, member_public_id, usable_target,
  candidate, candidates, finish_group, resolve_group_targets, direct_target, resolve_direct,
  resolve_targets, list_members,
}
use pogu.Service.Routing.Keys.{IsUsableKey, eligible_keys-perm, select-All, select-ne-nil}
use pogu.Service.Routing.Routes.{Names, resolve_route-Names}

err-ne-ok : {A : Type 0} (e : Error) (a : A) → err e ≡ ok a → ⊥
err-ne-ok e a h = cc

-- A target that the gateway may try.
pub record IsServable (t : Target) : Type 0 where
  pub owner : t.route.model.provider_id ≡ t.route.provider.id
  pub provider_on : t.route.provider.enabled ≡ true
  pub model_on : t.route.model.enabled ≡ true
  pub has_key : t.keys ≢ []
  pub keys_usable : All (IsUsableKey t.route.provider.id) t.keys

module _ (db : Db) where
  -- A resolved route with the keys that EligibleKeys offers for it.
  target-IsServable :
      (public_id : Text) (route : Route) (cursors : Cursors) (k : KeyRow) (ks : List KeyRow)
      → resolve_route db public_id ≡ ok route
      → (eligible_keys db route.provider.id cursors).0 ≡ ok (k ∷ ks)
      → IsServable (record { route = route; keys = k ∷ ks })
  target-IsServable public_id route cursors k ks r e =
      let n : Names db public_id route = resolve_route-Names db public_id route r in
      record {
        owner = n.owner;
        provider_on = n.provider_on;
        model_on = n.model_on;
        has_key = λ h. cc;
        keys_usable = (eligible_keys-perm db route.provider.id cursors (k ∷ ks) e).1;
      }

  usable_target-IsServable :
      (public_id : Text) (route : Route) (cursors : Cursors) (t : Target)
      → resolve_route db public_id ≡ ok route
      → usable_target route (eligible_keys db route.provider.id cursors).0 ≡ some t
      → IsServable t
  unfolding usable_target
  usable_target-IsServable public_id route cursors t r h =
      offered (eligible_keys db route.provider.id cursors).0 refl h
    where
      offered :
          (o : Result (List KeyRow))
          → (eligible_keys db route.provider.id cursors).0 ≡ o
          → usable_target route o ≡ some t
          → IsServable t
      offered (err x) e h = cc
      offered (ok []) e h = cc
      offered (ok (k ∷ ks)) e h =
          subst IsServable (some-eq-some h) (target-IsServable public_id route cursors k ks r e)

  member_route-named :
      (gm : MemberRow) (route : Route)
      → member_route db gm ≡ ok route
      → (public_id : Text) × (resolve_route db public_id ≡ ok route)
  unfolding member_route
  member_route-named gm route h = elim (Bool-cases gm.enabled) [
    | inr off ↦ absurd (ground (arith, h, off))
    | inl on ↦
        let (public_id, _, named) =
          >>=-eq-ok (or_fail (member_public_id db gm) unknown_route) (resolve_route db)
            (simp (on, member_route) at h) in
        (public_id, named)
  ]

  candidate-IsServable :
      (gm : MemberRow) (cursors : Cursors) (t : Target)
      → (candidate db gm cursors).0 ≡ some t
      → IsServable t
  unfolding candidate
  candidate-IsServable gm cursors t h = elim (Result-cases (member_route db gm)) [
    | inr (e, r) ↦ absurd (ground (arith, h, r))
    | inl (route, r) ↦
        let (public_id, named) = member_route-named gm route r in
        usable_target-IsServable public_id route cursors t named (rw (r, candidate) at h)
  ]

  candidates-IsServable :
      (gms : List MemberRow) (cursors : Cursors) → All IsServable (candidates db gms cursors).0
  unfolding candidates
  candidates-IsServable [] cursors = tt
  candidates-IsServable (gm ∷ gms) cursors =
      let rest = candidates-IsServable gms (candidate db gm cursors).1 in
      elim (Option-cases (candidate db gm cursors).0) [
        | inl e ↦ rw (e, candidates) rest
        | inr (t, e) ↦ rw (e, candidates) (candidate-IsServable gm cursors t e, rest)
      ]

-- What a successful resolution promises.
abbrev pub IsSafe : Resolution → Type 0
IsSafe r = (r.targets ≢ []) × All IsServable r.targets

module _ (db : Db) where
  finish_group-IsSafe :
      (g : GroupRow) (ts : List Target) (cursors : Cursors) (r : Resolution)
      → All IsServable ts
      → (finish_group g ts cursors).0 ≡ ok r
      → IsSafe r
  unfolding finish_group
  finish_group-IsSafe g [] cursors r a h = cc
  finish_group-IsSafe g (t ∷ ts) cursors r a h = subst IsSafe (ok-injective h) (
    select-ne-nil group g.id (t ∷ ts) cursors g.selection (λ e. cc),
    select-All IsServable g.selection group g.id (t ∷ ts) cursors a,
  )

  resolve_group_targets-IsSafe :
      (name : Text) (cursors : Cursors) (r : Resolution)
      → (resolve_group_targets db name cursors).0 ≡ ok r
      → IsSafe r
  unfolding resolve_group_targets
  resolve_group_targets-IsSafe name cursors r h =
      named (find (λ g. eq_nocase g.name name) db.groups.rows) refl
    where
      named :
          (o : Option GroupRow) → find (λ g. eq_nocase g.name name) db.groups.rows ≡ o → IsSafe r
      named none e = absurd (ground (arith, h, e))
      named (some g) e = elim (Bool-cases g.enabled) [
        | inr off ↦ absurd (ground (arith, h, e, off))
        | inl on ↦ elim (Result-cases (list_members db g.id)) [
          | inr (error, failed) ↦
              let refused : (resolve_group_targets db name cursors).0 ≡ err error =
                simp (e, on, failed, resolve_group_targets) in
              absurd (err-ne-ok error r (sym refused ∙ h))
          | inl (members, listed) ↦
              finish_group-IsSafe g (candidates db members cursors).0
                (candidates db members cursors).1 r (candidates-IsServable db members cursors)
                (simp (e, on, listed, resolve_group_targets) at h)
        ]
      ]

  resolve_direct-IsSafe :
      (model : Text) (cursors : Cursors) (r : Resolution)
      → (resolve_direct db model cursors).0 ≡ ok r
      → IsSafe r
  unfolding resolve_direct
  resolve_direct-IsSafe model cursors r h = elim (Result-cases (resolve_route db model)) [
    | inr (e, x) ↦ absurd (ground (arith, h, x))
    | inl (route, x) ↦
        offered route x (eligible_keys db route.provider.id cursors).0 refl
          (rw (x, resolve_direct) at h)
  ]
    where
      offered :
          (route : Route)
          → resolve_route db model ≡ ok route
          → (o : Result (List KeyRow)) → (eligible_keys db route.provider.id cursors).0 ≡ o
          → direct_target route (eligible_keys db route.provider.id cursors).0 ≡ ok r
          → IsSafe r
      offered route x (err y) e h = absurd (cc (rw e at h))
      offered route x (ok []) e h = absurd (cc (rw e at h))
      offered route x (ok (k ∷ ks)) e h =
          subst IsSafe (ok-injective (rw e at h))
            ((λ e. cc), (target-IsServable db model route cursors k ks x e, tt))

-- Whenever resolveTargets returns, there is a first target to try, and every target has an enabled
-- model that belongs to its enabled provider, at least one key, and only enabled keys of the provider.
pub resolve_targets-IsSafe :
    (db : Db) (model : Text) (cursors : Cursors) (r : Resolution)
    → (resolve_targets db model cursors).0 ≡ ok r
    → IsSafe r
unfolding resolve_targets
resolve_targets-IsSafe db model cursors r h = elim (Bool-cases (cut b'/' model).2) [
  | inr flat ↦ resolve_group_targets-IsSafe db model cursors r (rw (flat, resolve_targets) at h)
  | inl slash ↦ resolve_direct-IsSafe db model cursors r (ground (arith, h, slash))
]
