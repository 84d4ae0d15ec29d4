-- ===== src/Http/Routing/Unique.antt =====
-- The table of routes has one endpoint for a path and a method.
use mathlib.Core.Option.{some-injective}
use oos.Prelude.{
  ℕ, ◌≢◌, ◌↔◌, ◌==◌, ==_iff, AllOf, AllOf-append, ap, true, false, ◌⊎◌, ◌∙◌, ◌≡◌, refl, sym, ap,
  ◌∙◌, ◌⊎◌, inl, inr, Bool, true, false, Option, none, some, List, [], ◌∷◌, ◌++◌, ◌==◌,
  if◌then◌else◌, Bool-cases, Option-cases,
}
use oos.Prelude.Bytes.{Bytes, equal, equal_iff}
use oos.Prelude.Fallible.{>>=-eq-some}
use oos.Http.Types.{Method, unknown, get, post, put, del, options, head}
use oos.Http.Routing.{
  Groups, RouteEndpoint, method_number, same_method, has_key, find, add, create_route_endpoint,
  route_loop, prepare_route_path_elements,
}

abbrev method_of : ℕ → Method
method_of n =
    if n == 0
    then unknown
    else if n == 1
    then get
    else if n == 2
    then post
    else if n == 3
    then put
    else if n == 4
    then del
    else if n == 5
    then options
    else head

method_of-number : (m : Method) → method_of (method_number m) ≡ m
method_of-number unknown = refl
method_of-number get = refl
method_of-number post = refl
method_of-number put = refl
method_of-number del = refl
method_of-number options = refl
method_of-number head = refl

same_method_iff : (a b : Method) → (same_method a b ≡ true) ↔ (a ≡ b)
same_method_iff a b = (
  (λ h.
      let e : method_number a ≡ method_number b =
        (==_iff (method_number a) (method_number b)).0 h in
      sym (method_of-number a) ∙ ap method_of e ∙ method_of-number b),
  (λ e. (==_iff (method_number a) (method_number b)).1 (ap method_number e)),
)

module _ {Handler : Type 0} where
  -- The endpoint has another method or another path.
  abbrev pub IsOther : Bytes → Method → RouteEndpoint Handler → Type 0
  IsOther path m ep = (ep.method ≢ m) ⊎ (ep.path_spec ≢ path)

  -- No endpoint has the path and the method of one before it.
  abbrev pub IsUnique : List (RouteEndpoint Handler) → Type 0
  IsUnique [] = Unit
  IsUnique (ep ∷ routes) = AllOf (IsOther ep.path_spec ep.method) routes × IsUnique routes

  has_key_iff :
      (path : Bytes) (m : Method) (ep : RouteEndpoint Handler)
      → (has_key path m ep ≡ true) ↔ ((ep.method ≡ m) × (ep.path_spec ≡ path))
  unfolding has_key
  has_key_iff path m ep = (
    (λ h. elim (Bool-cases (same_method ep.method m)) [
      | inl e ↦ ((same_method_iff ep.method m).0 e, (equal_iff ep.path_spec path).0 (rw e at h))
      | inr e ↦ let d : false ≡ true = rw e at h in cc
    ]),
    (λ (e, d). rw ((same_method_iff ep.method m).1 e, (equal_iff ep.path_spec path).1 d) refl),
  )

  has_key-IsOther :
      (path : Bytes) (m : Method) (ep : RouteEndpoint Handler)
      → has_key path m ep ≡ false
      → IsOther path m ep
  unfolding has_key
  has_key-IsOther path m ep h = elim (Bool-cases (same_method ep.method m)) [
    | inl e ↦
        let g : equal ep.path_spec path ≡ false = rw e at h in
        inr (λ d. let t = (equal_iff ep.path_spec path).1 d in cc)
    | inr e ↦ inl (λ d. let t = (same_method_iff ep.method m).1 d in cc)
  ]

  find-head :
      (path : Bytes) (m : Method) (r : RouteEndpoint Handler)
      (routes : List (RouteEndpoint Handler))
      → find path m (r ∷ routes) ≡ none
      → (has_key path m r ≡ false) × (find path m routes ≡ none)
  unfolding find
  find-head path m r routes h = elim (Bool-cases (has_key path m r)) [
    | inl e ↦ let d : some r ≡ none = rw e at h in cc
    | inr e ↦ (e, rw e at h)
  ]

  find-append :
      (path : Bytes) (m : Method) (routes : List (RouteEndpoint Handler))
      (ep : RouteEndpoint Handler)
      → find path m routes ≡ none
      → find path m (routes ++ (ep ∷ [])) ≡ (if has_key path m ep then some ep else none)
  unfolding find
  find-append path m [] ep h = refl
  find-append path m (r ∷ routes) ep h =
      let (e, g) = find-head path m r routes h in rw e (find-append path m routes ep g)

  find-IsOther :
      (path : Bytes) (m : Method) (routes : List (RouteEndpoint Handler))
      → find path m routes ≡ none
      → AllOf (IsOther path m) routes
  find-IsOther path m [] h = tt
  find-IsOther path m (r ∷ routes) h =
      let (e, g) = find-head path m r routes h in
      (has_key-IsOther path m r e, find-IsOther path m routes g)

  -- An endpoint that stands in the table, with the path and the method.
  abbrev pub Has : Bytes → Method → RouteEndpoint Handler → List (RouteEndpoint Handler) → Type 0
  Has path m ep routes =
      (before : List (RouteEndpoint Handler)) × (after : List (RouteEndpoint Handler)) × (routes
        ≡ before ++ ep ∷ after)
      × (ep.method ≡ m)
      × (ep.path_spec ≡ path)

  find-Has :
      (path : Bytes) (m : Method) (routes : List (RouteEndpoint Handler))
      (ep : RouteEndpoint Handler)
      → find path m routes ≡ some ep
      → Has path m ep routes
  unfolding find
  find-Has path m [] ep h = cc
  find-Has path m (r ∷ routes) ep h = elim (Bool-cases (has_key path m r)) [
    | inl e ↦
        let p : r ≡ ep = some-injective r ep (rw e at h) in
        let (d, q) = (has_key_iff path m ep).0 (rw (← p) e) in
        ([], routes, ap (λ (x : RouteEndpoint Handler). x ∷ routes) p, d, q)
    | inr e ↦
        let (before, after, t, d, q) = find-Has path m routes ep (rw e at h) in
        (r ∷ before, after, ap (◌∷◌ r) t, d, q)
  ]

  IsUnique-append :
      (routes : List (RouteEndpoint Handler)) (ep : RouteEndpoint Handler)
      → IsUnique routes
      → AllOf (IsOther ep.path_spec ep.method) routes
      → IsUnique (routes ++ ep ∷ [])
  IsUnique-append [] ep u h = (tt, tt)
  IsUnique-append (r ∷ routes) ep (f, u) (o, h) = (
    AllOf-append (IsOther r.path_spec r.method) routes (ep ∷ []) f
        (elim o [ inl n ↦ inl (λ e. n (sym e)) | inr n ↦ inr (λ e. n (sym e)) ], tt),
    IsUnique-append routes ep u h,
  )

  create-key :
      (rp : Bytes → Option Groups) (path : Bytes) (m : Method) (h : Handler)
      (ep : RouteEndpoint Handler)
      → create_route_endpoint rp path m h ≡ some ep
      → (ep.path_spec ≡ path) × (ep.method ≡ m) × (ep.request_handler ≡ h)
  unfolding create_route_endpoint
  create-key rp path m h ep e =
      let keys : (made : RouteEndpoint Handler)
          → some made ≡ some ep
          → (ep.path_spec ≡ made.path_spec)
            × (ep.method ≡ made.method)
            × (ep.request_handler ≡ made.request_handler) =
        λ made d.
          let r = some-injective made ep d in
          (
            ap (λ (x : RouteEndpoint Handler). x.path_spec) (sym r),
            ap (λ (x : RouteEndpoint Handler). x.method) (sym r),
            ap (λ (x : RouteEndpoint Handler). x.request_handler) (sym r),
          ) in
      elim (Bool-cases (equal path (47 ∷ []))) [
        | inl q ↦ keys _ (rw q at e)
        | inr q ↦
            let (r, f, g) =
              >>=-eq-some (route_loop rp (prepare_route_path_elements path) [] 0 []) _
                (rw q at e) in
            keys _ g
      ]

-- An add that succeeds in a table that has no path and method twice leaves such a table. It changes
-- nothing where the table has an endpoint with the path and the method, and where it has none, an
-- endpoint with them and the handler joins the others at the end. A further add of the path and the
-- method, with any handler, changes nothing.
pub add-IsUnique :
    {Handler : Type 0} (rp : Bytes → Option Groups) (path : Bytes) (m : Method) (h k : Handler)
    (routes routes' : List (RouteEndpoint Handler))
    → add rp path m h routes ≡ some routes'
    → IsUnique routes
    → IsUnique routes'
      × (ep : RouteEndpoint Handler) × (((routes' ≡ routes) × Has path m ep routes)
          ⊎ ((routes' ≡ routes ++ ep ∷ [])
              × AllOf (IsOther path m) routes
              × (ep.path_spec ≡ path)
              × (ep.method ≡ m)
              × (ep.request_handler ≡ h)))
      × (add rp path m k routes' ≡ some routes')
unfolding add
add-IsUnique rp path m h k routes routes' e u = elim (Option-cases (find path m routes)) [
  | inl f ↦
      let (ep, made, d) =
        >>=-eq-some (create_route_endpoint rp path m h) (λ ep. some (routes ++ (ep ∷ [])))
          (rw (add, f) at e) in
      let (p, q, z) = create-key rp path m h ep made in
      let t : routes ++ (ep ∷ []) ≡ routes' = some-injective (routes ++ (ep ∷ [])) routes' d in
      let others = find-IsOther path m routes f in
      let there : find path m routes' ≡ some ep = rw (← t) (
        find-append path m routes ep f
        ∙ ap (λ (b : Bool). if b then some ep else none) ((has_key_iff path m ep).1 (q, p))) in
      (
        rw (← t) (IsUnique-append routes ep u (rw (p, q) others)),
        ep,
        inr (sym t, others, p, q, z),
        rw (add, there) refl,
      )
  | inr (ep, f) ↦
      let t : routes ≡ routes' = some-injective routes routes' (rw (add, f) at e) in
      let there : find path m routes' ≡ some ep = rw (← t) f in
      (rw (← t) u, ep, inl (sym t, find-Has path m routes ep f), rw (add, there) refl)
]
