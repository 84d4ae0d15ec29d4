-- ===== src/Http/Routing/Match.antt =====
-- `match` finds the first route that fits, and changes the parameters of the path only.
use mathlib.Core.Option.{some-injective}
use oos.Prelude.{
  ℕ, suc, ◌≡◌, refl, ap, inl, inr, true, Option, none, some, List, [], ◌∷◌, ◌++◌, Bool-cases,
  Option-cases, AllOf,
}
use oos.Prelude.Bytes.{Bytes}
use oos.Prelude.Fallible.{>>=-eq-some}
use oos.Http.Types.{Request, insert_param}
use oos.Http.Routing.{
  RouteEndpoint, same_method, look_up, insert_groups, endpoint_match, match_route,
}

insert_groups-path_params :
    (i : ℕ) (what : List Bytes) (m : List (ℕ × Bytes)) (req : Request)
    → insert_groups i what m req
      ≡ record req { path_params = (insert_groups i what m req).path_params }
unfolding insert_groups
insert_groups-path_params i [] m req = refl
insert_groups-path_params i (text ∷ what) m req = elim (Option-cases (look_up i m)) [
  | inl e ↦ rw (insert_groups, e) (insert_groups-path_params (suc i) what m req)
  | inr (name, e) ↦
      rw (insert_groups, e)
        (insert_groups-path_params (suc i) what m
          (record req { path_params = insert_param name text req.path_params }))
]

module _ {Handler : Type 0} (rx : Bytes → Bytes → Option (List Bytes)) where
  endpoint_match-path_params :
      (ep : RouteEndpoint Handler) (req r : Request)
      → endpoint_match rx ep req ≡ some r
      → (same_method ep.method req.method ≡ true) × (r ≡ record req { path_params = r.path_params })
  unfolding endpoint_match
  endpoint_match-path_params ep req r e = elim (Bool-cases (same_method ep.method req.method)) [
    | inl q ↦
        let (what, f, g) =
          >>=-eq-some (rx ep.path_regex req.url)
            (λ what. some (insert_groups 1 what ep.param_index_map req)) (rw q at e) in
        let s = some-injective (insert_groups 1 what ep.param_index_map req) r g in
        (q, rw (← s) (insert_groups-path_params 1 what ep.param_index_map req))
    | inr q ↦ let d : none ≡ some r = rw q at e in cc
  ]

  -- A route that `match` gives stands in the table behind routes that do not match, has the method of
  -- the request and matches it; of the request, no field but the parameters of the path changes.
  pub match_route-first :
      (routes : List (RouteEndpoint Handler)) (ep : RouteEndpoint Handler) (req r : Request)
      → match_route rx routes req ≡ some (ep, r)
      → (before : List (RouteEndpoint Handler)) × (after : List (RouteEndpoint Handler)) × (routes
          ≡ before ++ (ep ∷ after))
        × AllOf (λ e. endpoint_match rx e req ≡ none) before
        × (endpoint_match rx ep req ≡ some r)
        × (same_method ep.method req.method ≡ true)
        × (r ≡ record req { path_params = r.path_params })
  unfolding match_route
  match_route-first [] ep req r h = cc
  match_route-first (e ∷ routes) ep req r h = elim (Option-cases (endpoint_match rx e req)) [
    | inl n ↦
        let (before, after, t, a, u, v, w) =
          match_route-first routes ep req r (rw (match_route, n) at h) in
        (e ∷ before, after, ap (◌∷◌ e) t, (n, a), u, v, w)
    | inr (u, m) ↦
        let d : (e, u) ≡ (ep, r) = some-injective (e, u) (ep, r) (rw (match_route, m) at h) in
        let p : e ≡ ep = ap (λ (x : RouteEndpoint Handler × Request). x.0) d in
        let q : u ≡ r = ap (λ (x : RouteEndpoint Handler × Request). x.1) d in
        let m' : endpoint_match rx ep req ≡ some r = rw (← p, ← q) m in
        let (v, w) = endpoint_match-path_params ep req r m' in
        ([], routes, ap (λ (x : RouteEndpoint Handler). x ∷ routes) p, tt, m', v, w)
  ]
