-- ===== src/Configuration/Printed.antt =====
-- internal/configuration/viper.go: the settings as they are logged. A value is printed by the package
-- fmt, which is an argument, as is what the text `***` is among the values.
use fabric8_jenkins_idler.Common.{
  String, contains, Bool, false, ◌||◌, List, [], ◌∷◌, ◌≡◌, ◌↔◌, inl, inr, refl, sym, ap, ◌∙◌,
  Bool-cases, if◌then◌else◌,
}

-- the tests of String on a key
unfoldable pub is_secret : String → Bool
is_secret k = contains k "TOKEN" || contains k "token" || contains k "SECRET" || contains k "secret"

module _ {A : Type 0} (stars : A) where
  abbrev pub shown : String → A → A
  shown k v = if is_secret k then stars else v

  -- the loop of String over the settings
  unfoldable pub redact : List (String × A) → List (String × A)
  redact [] = []
  redact ((k, v) ∷ all_) = (k, shown k v) ∷ redact all_

  -- String. `print` is `fmt.Sprintf` with `%v`.
  unfoldable pub config_string : (List (String × A) → String) → List (String × A) → String
  unfolding redact
  config_string print all_ = print (redact all_)

-- The same keys in the same order, and the same values at those that are not secret.
abbrev pub SamePublic : {A : Type 0} → List (String × A) → List (String × A) → Type 0
SamePublic [] [] = Unit
SamePublic [] (t ∷ ts) = ⊥
SamePublic (s ∷ ss) [] = ⊥
SamePublic ((k, v) ∷ ss) ((l, w) ∷ ts) = (k ≡ l) × (is_secret k ≡ false → v ≡ w) × SamePublic ss ts

module _ {A : Type 0} (stars : A) where
  shown-eq_iff :
      (k : String) (v w : A) → (shown stars k v ≡ shown stars k w) ↔ (is_secret k ≡ false → v ≡ w)
  shown-eq_iff k v w = elim (Bool-cases (is_secret k)) [
    | inl e ↦ ((λ h f. cc), λ h. rw e refl)
    | inr e ↦ ((λ h f. rw e at h), λ h. rw e (h e))
  ]

  -- What of two lists of settings is handed to the printer is the same exactly if they have the same
  -- keys in the same order and the same values at the keys that are not secret. So the values of the
  -- secret keys, those that hold `token` or `secret` in upper or in lower case, never show, and all
  -- else does.
  pub redact-same_iff :
      (ss ts : List (String × A)) → (redact stars ss ≡ redact stars ts) ↔ SamePublic ss ts
  unfolding redact
  redact-same_iff [] [] = ((λ h. tt), λ h. refl)
  redact-same_iff [] ((l, w) ∷ ts) = ((λ h. cc), λ h. absurd h)
  redact-same_iff ((k, v) ∷ ss) [] = ((λ h. cc), λ h. absurd h)
  redact-same_iff ((k, v) ∷ ss) ((l, w) ∷ ts) =
      let (to, from) = redact-same_iff ss ts in
      (
        λ h.
            (let keys : k ≡ l = cc in
              let shown_same : shown stars k v ≡ shown stars l w = cc in
              let rest : redact stars ss ≡ redact stars ts = cc in
              (
                keys,
                (shown-eq_iff k v w).0 (shown_same ∙ ap (λ x. shown stars x w) (sym keys)),
                to rest,
              )),
        λ (keys, same, rest).
            (let values : shown stars k v ≡ shown stars l w =
                (shown-eq_iff k v w).1 same ∙ ap (λ x. shown stars x w) keys in
              let tails = from rest in cc),
      )
