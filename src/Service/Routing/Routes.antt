-- ===== src/Service/Routing/Routes.antt =====
-- ResolveRoute: which model and provider an identifier names.
use pogu.Prelude.{
  ◌≡◌, ◌≢◌, refl, [], ◌∷◌, ◌++◌, Bool, true, false, ◌==◌, arith, subst, ◌∙◌, Text, Among,
  find-Among, find, find-holds, cut, cut_sound, cut-append, eq_text_iff, Option-cases, inl, inr,
}
use pogu.Store.{Db, ProviderRow, ModelRow}
use pogu.Service.Types.{ok, Route, unknown_route, or_fail, >>=-eq-ok, or_fail-eq-ok, ok-injective}
use pogu.Service.Validate.{
  valid_provider_prefix, valid_provider_prefix-Lacks, valid_provider_prefix-ne-nil,
}
use pogu.Service.Routing.{get_provider, serves, resolve_parts, resolve_route}

-- What makes a route the right one for an identifier.
pub record Names (db : Db) (public_id : Text) (r : Route) : Type 0 where
  pub spelled : public_id ≡ r.provider.prefix ++ b'/' ∷ r.model.name
  pub owner : r.model.provider_id ≡ r.provider.id
  pub provider_on : r.provider.enabled ≡ true
  pub model_on : r.model.enabled ≡ true

record Serves (db : Db) (prefix name : Text) (r : Route) : Type 0 where
  prefix_is : r.provider.prefix ≡ prefix
  name_is : r.model.name ≡ name
  owner : r.model.provider_id ≡ r.provider.id
  provider_on : r.provider.enabled ≡ true
  model_on : r.model.enabled ≡ true

module _ (db : Db) (prefix name : Text) where
  serves-Serves :
      (m : ModelRow) (p : ProviderRow)
      → serves db prefix name m ≡ true
      → get_provider db m.provider_id ≡ ok p
      → Serves db prefix name (record { provider = p; model = m })
  unfolding serves get_provider
  serves-Serves m p h g = ground (
    arith,
    eq_text_iff p.prefix prefix,
    eq_text_iff m.name name,
    find-holds (λ (q : ProviderRow). q.id == m.provider_id) db.providers.rows {x = p},
  )

  serves-provider :
      (m : ModelRow)
      → serves db prefix name m ≡ true
      → (p : ProviderRow) × (get_provider db m.provider_id ≡ ok p)
  unfolding serves get_provider
  serves-provider m h = elim (Option-cases (find (λ p. p.id == m.provider_id) db.providers.rows)) [
    | inl e ↦ absurd (ground arith)
    | inr (p, e) ↦ (p, rw e)
  ]

  serves_here :
      (m : ModelRow) (p : ProviderRow)
      → get_provider db m.provider_id ≡ ok p
      → p.prefix ≡ prefix
      → m.name ≡ name
      → p.enabled ≡ true
      → m.enabled ≡ true
      → serves db prefix name m ≡ true
  unfolding serves get_provider
  serves_here m p owner a b on on' =
      ground (arith, eq_text_iff p.prefix prefix, eq_text_iff m.name name)

  -- A row that serves the two parts makes the lookup succeed.
  resolve_parts_reaches :
      (m : ModelRow)
      → Among m db.models.rows
      → serves db prefix name m ≡ true
      → (r : Route) × (resolve_parts db prefix name ≡ ok r)
  unfolding resolve_parts
  resolve_parts_reaches m among h =
      let (m', found) = find-Among (serves db prefix name) db.models.rows m among h in
      let (p', owner) = serves-provider m' (find-holds (serves db prefix name) _ found) in
      (record { provider = p'; model = m' }, rw (found, resolve_parts) (rw owner))

  resolve_parts-Serves : (r : Route) → resolve_parts db prefix name ≡ ok r → Serves db prefix name r
  unfolding resolve_parts
  resolve_parts-Serves r h =
      let (m, found, rest) =
        >>=-eq-ok (or_fail (find (serves db prefix name) db.models.rows) unknown_route) _ h in
      let (p, owner, made) = >>=-eq-ok (get_provider db m.provider_id) _ rest in
      subst (Serves db prefix name) (ok-injective made) (
        serves-Serves m p
          (find-holds (serves db prefix name) db.models.rows (or_fail-eq-ok _ unknown_route found))
          owner)

-- Whenever ResolveRoute returns a route, the identifier is the provider's prefix, a slash and the
-- model's name, the model belongs to the provider, and both are enabled.
pub resolve_route-Names :
    (db : Db) (public_id : Text) (r : Route)
    → resolve_route db public_id ≡ ok r
    → Names db public_id r
unfolding resolve_route
resolve_route-Names db public_id r h = parts (cut b'/' public_id) refl
  where
    parts : (c : Text × Text × Bool) → cut b'/' public_id ≡ c → Names db public_id r
    parts (prefix, name, false) e = ground (arith, h)
    parts (prefix, name, true) e =
        let s : Serves db prefix name r = resolve_parts-Serves db prefix name r (ground arith) in
        record {
          spelled = rw (s.prefix_is, s.name_is) (cut_sound b'/' public_id prefix name e);
          owner = s.owner;
          provider_on = s.provider_on;
          model_on = s.model_on;
        }

resolve_route-parts :
    (db : Db) (public_id prefix name : Text)
    → cut b'/' public_id ≡ (prefix, name, true)
    → prefix ≢ []
    → name ≢ []
    → resolve_route db public_id ≡ resolve_parts db prefix name
unfolding resolve_route
resolve_route-parts db public_id prefix name e a b =
    rw (e, resolve_route) (ground (arith, eq_text_iff prefix [], eq_text_iff name []))

-- An enabled model of an enabled provider with a well-formed prefix is reached by the prefix, a
-- slash and its name: ResolveRoute returns a route of that spelling.
pub resolve_route_reaches :
    (db : Db) (p : ProviderRow) (m : ModelRow)
    → Among m db.models.rows
    → get_provider db m.provider_id ≡ ok p
    → valid_provider_prefix p.prefix ≡ true
    → m.name ≢ []
    → p.enabled ≡ true
    → m.enabled ≡ true
    → (r : Route) × (resolve_route db (p.prefix ++ b'/' ∷ m.name) ≡ ok r)
      × (r.provider.prefix ≡ p.prefix)
      × (r.model.name ≡ m.name)
resolve_route_reaches db p m among owner valid named on on' =
    let (r, e) =
      resolve_parts_reaches db p.prefix m.name m among
        (serves_here db p.prefix m.name m p owner refl refl on on') in
    let s : Serves db p.prefix m.name r = resolve_parts-Serves db p.prefix m.name r e in
    (
      r,
      resolve_route-parts db _ p.prefix m.name
            (cut-append b'/' p.prefix m.name (valid_provider_prefix-Lacks p.prefix valid))
            (valid_provider_prefix-ne-nil p.prefix valid) named
          ∙ e,
      s.prefix_is,
      s.name_is,
    )
