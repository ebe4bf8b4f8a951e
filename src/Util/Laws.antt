-- ===== src/Util/Laws.antt =====
-- internal/util: what a list of collected errors, a slice and a suffix keep.
use fabric8_jenkins_idler.Common.{
  String, true, ◌==◌, eq_iff, has_suffix, has_suffix-append, List, [], ◌∷◌, none, ◌≡◌, refl, ◌↔◌,
  inl, inr, arith, Bool-cases, Any,
}
use fabric8_jenkins_idler.Util.{MultiError, empty, to_error, ensure_suffix, contains_string}

-- The suffix is there afterwards, and a second call changes nothing.
pub ensure_suffix-has_suffix : (s t : String) → has_suffix (ensure_suffix s t) t ≡ true
unfolding ensure_suffix
ensure_suffix-has_suffix s t = elim (Bool-cases (has_suffix s t)) [
  | inl e ↦ rw e e
  | inr e ↦ rw e (has_suffix-append s t)
]

pub ensure_suffix_idem : (s t : String) → ensure_suffix (ensure_suffix s t) t ≡ ensure_suffix s t
unfolding ensure_suffix
ensure_suffix_idem s t = rw (ensure_suffix, ensure_suffix-has_suffix s t)

-- `Contains` decides membership.
pub contains_string_iff :
    (list : List String) (s : String) → (contains_string list s ≡ true) ↔ Any (λ x. x ≡ s) list
unfolding contains_string
contains_string_iff [] s = (λ h. cc, λ h. absurd h)
contains_string_iff (x ∷ list) s = elim (Bool-cases (x == s)) [
  | inl e ↦ rw e (λ _. inl ((eq_iff x s).0 e), λ _. refl)
  | inr e ↦ rw e (
    λ h. inr ((contains_string_iff list s).0 h),
    λ h. ground (arith, eq_iff x s, (contains_string_iff list s).1),
  )
]

-- There is an error to return exactly if one was collected.
pub to_error-none_iff :
    (f : String → String) (m : MultiError) → (to_error f m ≡ none) ↔ (empty m ≡ true)
unfolding to_error empty
to_error-none_iff f [] = (λ h. refl, λ h. refl)
to_error-none_iff f (e ∷ m) = (λ h. cc, λ h. cc)
