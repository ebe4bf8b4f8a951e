-- ===== src/Cluster/Laws.antt =====
-- What a caller of the cluster service and of its view may rely on.
use fabric8_jenkins_idler.Common.{
  String, ◌==◌, eq_iff, false, List, [], ◌∷◌, some, Result, ok, err, gives, crashes, Attempt,
  Attempt-cases, map, select, ◌≡◌, refl, ap, subst, ◌⊎◌, inl, inr, arith, All, IsFirst, Bool-cases,
  Result-cases,
}
use fabric8_jenkins_idler.Cluster.{
  Cluster, ClusterData, Sources, clean_url, resolve, get_token, collect_clusters, osio_type,
  to_cluster,
}

-- a cluster of the list, with its user and token, all answers having been good
abbrev pub IsChecked : Sources → Cluster → Type 0
IsChecked s c =
    (c.type ≡ osio_type)
    × (s.resolve_token c.api_url ≡ gives (ok (c.user, c.token)))
    × ((name : String) × (s.who_am_i c.api_url c.token ≡ ok name))

abbrev Selected : Sources → List ClusterData → List Cluster → Type 0
Selected s data_ clusters =
    (map (λ c. c.api_url) clusters ≡ map (λ c. c.api_url) (select (λ c. c.type == osio_type) data_))
    × All (IsChecked s) clusters

abbrev pub value_or : {A : Type 0} → A → Result A → A
value_or a (ok b) = b
value_or a (err e) = a

pub ok-injective : {A : Type 0} {a b : A} → ok a ≡ ok b → a ≡ b
ok-injective {a = a} e = ap (value_or a) e

abbrev result_or : {A : Type 0} → Result A → Attempt A → Result A
result_or r (gives q) = q
result_or r (crashes e) = r

pub gives-injective : {A : Type 0} {a b : Result A} → gives a ≡ gives b → a ≡ b
gives-injective {a = a} e = ap (result_or a) e

module _ (s : Sources) where
  -- If the loop of GetClusterView succeeds, the clusters are, in order, all those of the list that
  -- have the type OSO; and each has the user and the token that the resolver gave for it, and
  -- OpenShift knew the token.
  pub collect_clusters_complete :
      (data_ : List ClusterData) (clusters : List Cluster)
      → collect_clusters s data_ ≡ gives (ok clusters)
      → (map (λ c. c.api_url) clusters
          ≡ map (λ c. c.api_url) (select (λ c. c.type == osio_type) data_))
        × All (IsChecked s) clusters
  unfolding collect_clusters
  collect_clusters_complete [] clusters h =
      let e : [] ≡ clusters = ok-injective (gives-injective h) in subst (Selected s []) e (refl, tt)
  collect_clusters_complete (c ∷ data_) clusters h = elim (Bool-cases (c.type == osio_type)) [
    | inr other ↦
        let next : collect_clusters s data_ ≡ gives (ok clusters) = ground arith in
        rw other (collect_clusters_complete data_ clusters next)
    | inl oso ↦ elim (Attempt-cases (s.resolve_token c.api_url)) [
      | inr (inl (e, bad)) ↦ absurd (ground arith)
      | inr (inr (e, bad)) ↦ absurd (ground arith)
      | inl ((user, token), found) ↦ elim (Result-cases (s.who_am_i c.api_url token)) [
        | inr (e, bad) ↦ absurd (ground arith)
        | inl (name, known) ↦ elim (Attempt-cases (collect_clusters s data_)) [
          | inr (inl (e, bad)) ↦ absurd (ground arith)
          | inr (inr (e, bad)) ↦ absurd (ground arith)
          | inl (cs, fine) ↦
              let e : gives (ok (to_cluster c user token ∷ cs)) ≡ gives (ok clusters) =
                ground arith in
              let (urls, checked) = collect_clusters_complete data_ cs fine in
              subst (Selected s (c ∷ data_)) (ok-injective (gives-injective e))
                (rw (oso, urls), (((eq_iff c.type osio_type).0 oso, found, (name, known)), checked))
        ]
      ]
    ]
  ]

-- Resolve returns the first cluster whose API URL is the target but for a final slash, and an error
-- exactly when there is none.
pub resolve-IsFirst :
    (clusters : List Cluster) (target : String)
    → ((c : Cluster) × (resolve clusters target ≡ ok c)
        × IsFirst (λ d. clean_url target == clean_url d.api_url) clusters c)
      ⊎ ((resolve clusters target ≡ err "unable to resolve cluster")
          × All (λ d. (clean_url target == clean_url d.api_url) ≡ false) clusters)
unfolding resolve
resolve-IsFirst [] target = inr (refl, tt)
resolve-IsFirst (d ∷ clusters) target =
    elim (Bool-cases (clean_url target == clean_url d.api_url)) [
      | inl e ↦ inl (
        d,
        rw e,
        record { before = []; behind = clusters; split = refl; passes = e; others_fail = tt },
      )
      | inr e ↦ elim (resolve-IsFirst clusters target) [
        | inr (r, fails) ↦ inr (rw (e, r), (e, fails))
        | inl (c, r, f) ↦ inl (
          c,
          rw (e, r),
          record {
            before = d ∷ f.before;
            behind = f.behind;
            split = ap (◌∷◌ d) f.split;
            passes = f.passes;
            others_fail = (e, f.others_fail);
          },
        )
      ]
    ]

-- If GetToken finds a token, it is that of the first cluster with the URL.
pub get_token-IsFirst :
    (clusters : List Cluster) (url : String) (t : String)
    → get_token clusters url ≡ some t
    → (c : Cluster) × (c.token ≡ t) × IsFirst (λ d. d.api_url == url) clusters c
unfolding get_token
get_token-IsFirst [] url t h = absurd (ground arith)
get_token-IsFirst (d ∷ clusters) url t h = elim (Bool-cases (d.api_url == url)) [
  | inl e ↦ (
    d,
    ground arith,
    record { before = []; behind = clusters; split = refl; passes = e; others_fail = tt },
  )
  | inr e ↦
      let next : get_token clusters url ≡ some t = ground arith in
      let (c, same, f) = get_token-IsFirst clusters url t next in
      (
        c,
        same,
        record {
          before = d ∷ f.before;
          behind = f.behind;
          split = ap (◌∷◌ d) f.split;
          passes = f.passes;
          others_fail = (e, f.others_fail);
        },
      )
]
