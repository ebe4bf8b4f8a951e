-- ===== src/Program/Features.antt =====
-- The features that main chooses, and what a check of a user idler does with them.
use fabric8_jenkins_idler.Common.{
  ℕ, ◌≤◌, String, List, [], ◌∷◌, Option, none, some, Result, ok, err, Any, leb, leb→le, ◌≡◌, ◌≢◌,
  ◌⊎◌, inl, inr, refl, ◌∙◌, ap, arith, Bool-cases,
}
use fabric8_jenkins_idler.Toggles.{FixedUuidToggle, new_fixed_uuid_toggle}
use fabric8_jenkins_idler.Toggles.Unleash.{new_unleash_toggle, awaited, created}
use fabric8_jenkins_idler.Toggles.Users.{check_idle_not_listed}
use fabric8_jenkins_idler.Configuration.Settings.{get_toggle_url, get_fixed_uuids}
use fabric8_jenkins_idler.UserIdler.{Call, ask_enabled, Services, Machine, check_idle}
use fabric8_jenkins_idler.Program.Startup.{
  World, Flags, goes_on, or_fatal, Features, fixed, unleashed, as_unleashed, features_enabled,
  toggle_for, create_feature_toggle, Idler, main,
}
use fabric8_jenkins_idler.Program.Checked.{main-IsStarted}

module _ (w : World) where
  -- an Unleash client that was ready in time
  pub record IsAwaited (url : String) (f : Features w) : Type 0 where
    pub client : w.unleash.Handle
    pub seconds : ℕ
    pub made : w.unleash.new_client "jenkins-idler" url ≡ ok client
    pub ready : w.unleash.ready_after client ≡ some seconds
    pub in_time : seconds ≤ 10
    pub chosen : f ≡ unleashed client

  abbrev Chosen : String → List String → Features w → Type 0
  Chosen url ids f =
      ((ids ≢ []) × (f ≡ fixed (record { uuids = ids }))) ⊎ ((ids ≡ []) × IsAwaited url f)

  awaited-IsAwaited :
      (url : String) (f : Features w) (client : w.unleash.Handle)
      → w.unleash.new_client "jenkins-idler" url ≡ ok client
      → (o : Option ℕ) → w.unleash.ready_after client ≡ o
      → or_fatal (as_unleashed w (awaited w.unleash client o)) ≡ goes_on f
      → IsAwaited url f
  awaited-IsAwaited url f client made none ready h = cc
  awaited-IsAwaited url f client made (some seconds) ready h = elim (Bool-cases (leb seconds 10)) [
    | inl e ↦ record {
      client = client;
      seconds = seconds;
      made = made;
      ready = ready;
      in_time = leb→le seconds 10 e;
      chosen = ground arith;
    }
    | inr e ↦ absurd (ground arith)
  ]

  created-IsAwaited :
      (url : String) (f : Features w) (r : Result w.unleash.Handle)
      → w.unleash.new_client "jenkins-idler" url ≡ r
      → or_fatal (as_unleashed w (created w.unleash r)) ≡ goes_on f
      → IsAwaited url f
  created-IsAwaited url f (err e) made h = cc
  created-IsAwaited url f (ok client) made h =
      awaited-IsAwaited url f client made (w.unleash.ready_after client) refl h

  Chosen-toggle :
      (url : String) (ids : List String) (f : Features w)
      → toggle_for w url ids ≡ goes_on f
      → Chosen url ids f
  unfolding toggle_for new_fixed_uuid_toggle new_unleash_toggle
  Chosen-toggle url [] f h = inr (refl, created-IsAwaited url f _ refl h)
  Chosen-toggle url (id ∷ ids) f h = inl ((λ e. cc), ground arith)

-- When main calls Run, its features are the fixed list of users if the configuration has one that is
-- not empty, and otherwise an Unleash client at the configured address that was made without an
-- error and was ready within 10 seconds.
pub main-features :
    (w : World) (flags : Flags) (i : Idler w)
    → main w flags ≡ goes_on i
    → ((get_fixed_uuids w.viper i.config ≢ [])
        × (i.feature_service ≡ fixed (record { uuids = get_fixed_uuids w.viper i.config })))
      ⊎ ((get_fixed_uuids w.viper i.config ≡ [])
          × IsAwaited w (get_toggle_url w.viper i.config) i.feature_service)
unfolding create_feature_toggle
main-features w flags i h =
    Chosen-toggle w _ _ i.feature_service (main-IsStarted w flags i h).features_chosen

-- If main calls Run with a configuration that has a fixed list of users, no user off the list is ever
-- idled or un-idled by a check: of a user idler whose features are main's, the check of such a user
-- returns nil, changes nothing, and makes no call but the question to the features.
pub main-skips_unlisted :
    (w : World) (flags : Flags) (i : Idler w) (sv : Services) (m : Machine)
    → main w flags ≡ goes_on i
    → ((h : List Call) (id : String)
        → sv.is_idler_enabled h id ≡ features_enabled w i.feature_service id)
    → get_fixed_uuids w.viper i.config ≢ []
    → ¬ Any (λ x. x ≡ m.user.id) (get_fixed_uuids w.viper i.config)
    → check_idle sv m ≡ (ok tt, record m { calls = ask_enabled m.user.id ∷ m.calls })
unfolding features_enabled
main-skips_unlisted w flags i sv m started same not_empty unlisted =
    elim (main-features w flags i started) [
      | inl (_, listed) ↦
          let t : FixedUuidToggle = record { uuids = get_fixed_uuids w.viper i.config } in
          check_idle_not_listed t sv m
            (λ h id. same h id ∙ ap (λ f. features_enabled w f id) listed) unlisted
      | inr (e, _) ↦ absurd (not_empty e)
    ]
