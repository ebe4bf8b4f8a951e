-- ===== src/Model/StringSet.antt =====
-- internal/model/stringset.go: the set of disabled users, over the concurrent map.
use fabric8_jenkins_idler.Common.{
  String, Bool, true, not, ◌&&◌, ◌||◌, List, [], ◌∷◌, ◌≡◌, refl, arith,
}
use fabric8_jenkins_idler.ConcurrentMap.{ConcurrentMap, is_some}
use fabric8_jenkins_idler.Util.{contains_string}

module _ (cm : ConcurrentMap Bool) where
  open cm use {Map, get, set, remove, get-set, get-remove}

  unfoldable pub has : Map → String → Bool
  has m v = is_some (get m v)

  -- StringSet.Add
  unfoldable pub add_all : Map → List String → Map
  add_all m [] = m
  add_all m (v ∷ vs) = add_all (set m v true) vs

  -- StringSet.Remove
  unfoldable pub remove_all : Map → List String → Map
  remove_all m [] = m
  remove_all m (v ∷ vs) = remove_all (remove m v) vs

  pub has-add_all :
      (m : Map) (vs : List String) (k : String)
      → has (add_all m vs) k ≡ contains_string vs k || has m k
  unfolding has add_all contains_string
  has-add_all m [] k = refl
  has-add_all m (v ∷ vs) k = ground (arith, has-add_all (set m v true) vs k, get-set m v true k)

  pub has-remove_all :
      (m : Map) (vs : List String) (k : String)
      → has (remove_all m vs) k ≡ not (contains_string vs k) && has m k
  unfolding has remove_all contains_string
  has-remove_all m [] k = refl
  has-remove_all m (v ∷ vs) k = ground (arith, has-remove_all (remove m v) vs k, get-remove m v k)
