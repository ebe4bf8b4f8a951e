-- ===== src/Toggles/Users.antt =====
-- What the fixed list of users means for a check of the user idler.
use fabric8_jenkins_idler.Common.{
  String, false, List, ◌∷◌, ok, Any, ◌≡◌, ◌∙◌, ap, inl, inr, Bool-cases,
}
use fabric8_jenkins_idler.Util.{contains_string}
use fabric8_jenkins_idler.Util.Laws.{contains_string_iff}
use fabric8_jenkins_idler.UserIdler.{Call, ask_enabled, Services, Machine, check_idle}
use fabric8_jenkins_idler.Toggles.{FixedUuidToggle, is_enabled}

not_listed :
    (uuids : List String) (id : String)
    → ¬ Any (λ x. x ≡ id) uuids
    → contains_string uuids id ≡ false
not_listed uuids id h = elim (Bool-cases (contains_string uuids id)) [
  | inl e ↦ absurd (h ((contains_string_iff uuids id).0 e))
  | inr e ↦ e
]

-- With a fixed list of users as the features, a check of a user who is not on the list returns nil,
-- changes nothing, and makes no call but the question to the features: Jenkins is neither idled nor
-- un-idled, whatever the conditions and the state.
pub check_idle_not_listed :
    (t : FixedUuidToggle) (sv : Services) (m : Machine)
    → ((h : List Call) (id : String) → sv.is_idler_enabled h id ≡ is_enabled t id)
    → ¬ Any (λ x. x ≡ m.user.id) t.uuids
    → check_idle sv m ≡ (ok tt, record m { calls = ask_enabled m.user.id ∷ m.calls })
unfolding check_idle is_enabled
check_idle_not_listed t sv m features h =
    let off : sv.is_idler_enabled m.calls m.user.id ≡ ok false =
      features m.calls m.user.id ∙ ap ok (not_listed t.uuids m.user.id h) in
    rw off
