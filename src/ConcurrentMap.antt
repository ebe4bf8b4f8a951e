-- ===== src/ConcurrentMap.antt =====
-- github.com/orcaman/concurrent-map, which the source imports: a map from texts, as an interface with
-- the behaviour that its documentation gives. Its shards and locks are not modelled: each operation
-- is one step.
use fabric8_jenkins_idler.Common.{
  String, ◌==◌, eq_iff, List, [], ◌∷◌, Bool, true, false, Option, none, some, Any, ◌≡◌, ◌≢◌, ◌↔◌,
  refl, inl, inr, arith, Bool-cases, if◌then◌else◌,
}

pub record ConcurrentMap (V : Type 0) : Type 1 where
  pub Map : Type 0
  pub new : Map
  pub get : Map → String → Option V
  pub set : Map → String → V → Map
  pub remove : Map → String → Map
  pub keys : Map → List String
  pub get-new : (k : String) → get new k ≡ none
  pub get-set :
      (m : Map) (k : String) (v : V) (j : String)
      → get (set m k v) j ≡ (if k == j then some v else get m j)
  pub get-remove :
      (m : Map) (k j : String) → get (remove m k) j ≡ (if k == j then none else get m j)
  pub keys_iff : (m : Map) (k : String) → Any (λ x. x ≡ k) (keys m) ↔ (get m k ≢ none)

-- Has
abbrev pub is_some : {V : Type 0} → Option V → Bool
is_some none = false
is_some (some v) = true

-- Association lists meet the interface.
module _ {V : Type 0} where
  lookup : List (String × V) → String → Option V
  lookup [] j = none
  lookup ((k, v) ∷ m) j = if k == j then some v else lookup m j

  without : List (String × V) → String → List (String × V)
  without [] j = []
  without ((k, v) ∷ m) j = let rest = without m j in if k == j then rest else (k, v) ∷ rest

  lookup-without :
      (m : List (String × V)) (k j : String)
      → lookup (without m k) j ≡ (if k == j then none else lookup m j)
  unfolding lookup without
  lookup-without [] k j = ground arith
  lookup-without ((i, v) ∷ m) k j =
      ground (arith, lookup-without m k j, eq_iff i k, eq_iff i j, eq_iff k j)

  lookup-set :
      (m : List (String × V)) (k : String) (v : V) (j : String)
      → lookup ((k, v) ∷ m) j ≡ (if k == j then some v else lookup m j)
  unfolding lookup
  lookup-set m k v j = refl

  lookup-new : (k : String) → lookup [] k ≡ none
  unfolding lookup
  lookup-new k = refl

  abbrev names : List (String × V) → List String
  names [] = []
  names ((k, v) ∷ m) = k ∷ names m

  names_sound :
      (m : List (String × V)) (k : String) → Any (λ x. x ≡ k) (names m) → lookup m k ≢ none
  unfolding lookup
  names_sound [] k h e = h
  names_sound ((i, v) ∷ m) k (inl p) e = ground (arith, eq_iff i k)
  names_sound ((i, v) ∷ m) k (inr p) e = names_sound m k p (ground (arith, eq_iff i k))

  names_complete :
      (m : List (String × V)) (k : String) → lookup m k ≢ none → Any (λ x. x ≡ k) (names m)
  unfolding lookup
  names_complete [] k h = absurd (h refl)
  names_complete ((i, v) ∷ m) k h = elim (Bool-cases (i == k)) [
    | inl e ↦ inl ((eq_iff i k).0 e)
    | inr e ↦ inr (names_complete m k (λ p. h (rw e p)))
  ]

  unfoldable pub assoc_map : ConcurrentMap V
  unfolding lookup without lookup-new lookup-set lookup-without names_sound names_complete
  assoc_map = record {
    Map = List (String × V);
    new = [];
    get = lookup;
    set = λ m k v. (k, v) ∷ m;
    remove = without;
    keys = names;
    get-new = lookup-new;
    get-set = lookup-set;
    get-remove = lookup-without;
    keys_iff = λ m k. (names_sound m k, names_complete m k);
  }
