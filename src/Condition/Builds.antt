-- ===== src/Condition/Builds.antt =====
-- When the build condition and the deployment config condition ask for which action.
use fabric8_jenkins_idler.Common.{
  eq_iff, ◌*◌, ◌≤◌, ◌<◌, Time, second, add_duration, sub_time, ◌≡◌, ◌≢◌, ◌⊎◌, ◌↔◌, inl, inr, true,
  false, ◌==◌, arith, ltb, after, ltb→lt, Bool-cases,
}
use fabric8_jenkins_idler.Model.{User, has_active_builds, has_completed_builds}
use fabric8_jenkins_idler.Condition.Defs.{
  no_action, idle, un_idle, BuildCondition, DcCondition, build_action, dc_action,
}

module _ (c : BuildCondition) (now : Time) (u : User) where
  -- The reasons for which a user's builds let Jenkins be idled.
  pub data IsQuiet : Type 0 where
    no_builds : u.active_build.metadata.name ≡ "" → u.done_build.metadata.name ≡ "" → IsQuiet
    overlong :
        u.active_build.metadata.name ≢ ""
        → add_duration u.active_build.status.start_timestamp c.idle_long_build < now
        → IsQuiet
    new_but_completed :
        u.active_build.metadata.name ≢ ""
        → u.active_build.status.phase ≡ "New"
        → 2 * second
          < sub_time u.active_build.status.completion_timestamp
              u.active_build.status.start_timestamp
        → IsQuiet
    cancelled :
        u.active_build.metadata.name ≡ ""
        → u.done_build.metadata.name ≢ ""
        → u.done_build.status.phase ≡ "Cancelled"
        → IsQuiet
    elapsed :
        u.active_build.metadata.name ≡ ""
        → u.done_build.metadata.name ≢ ""
        → add_duration u.done_build.status.completion_timestamp c.idle_after < now
        → IsQuiet

  IsQuiet→idle : IsQuiet → build_action c now u ≡ idle
  unfolding build_action has_active_builds has_completed_builds
  IsQuiet→idle (no_builds a d) =
      ground (arith, eq_iff u.active_build.metadata.name "", eq_iff u.done_build.metadata.name "")
  IsQuiet→idle (overlong a h) = ground (arith, eq_iff u.active_build.metadata.name "")
  IsQuiet→idle (new_but_completed a p h) =
      ground
        (arith, eq_iff u.active_build.metadata.name "", eq_iff u.active_build.status.phase "New")
  IsQuiet→idle (cancelled a d p) = ground (
    arith,
    eq_iff u.active_build.metadata.name "",
    eq_iff u.done_build.metadata.name "",
    eq_iff u.done_build.status.phase "Cancelled",
  )
  IsQuiet→idle (elapsed a d h) =
      ground (arith, eq_iff u.active_build.metadata.name "", eq_iff u.done_build.metadata.name "")

  quiet_active : has_active_builds u ≡ true → IsQuiet ⊎ (build_action c now u ≡ un_idle)
  unfolding build_action has_active_builds
  quiet_active a =
      let named : u.active_build.metadata.name ≢ "" =
        λ e. ground (arith, eq_iff u.active_build.metadata.name "") in
      elim (Bool-cases
        (after now (add_duration u.active_build.status.start_timestamp c.idle_long_build))) [
          | inl late ↦ inl (overlong named (ltb→lt _ now late))
          | inr fits ↦ elim (Bool-cases (u.active_build.status.phase == "New")) [
            | inl new ↦
                elim (Bool-cases (
                  ltb (2 * second) (
                    sub_time u.active_build.status.completion_timestamp
                      u.active_build.status.start_timestamp))) [
                        | inl over ↦
                            inl (new_but_completed named ((eq_iff _ _).0 new) (ltb→lt _ _ over))
                        | inr under ↦ inr (ground (arith, eq_iff u.active_build.metadata.name ""))
                      ]
            | inr old ↦ inr (ground (arith, eq_iff u.active_build.metadata.name ""))
          ]
        ]

  quiet_done : has_active_builds u ≡ false → IsQuiet ⊎ (build_action c now u ≡ un_idle)
  unfolding build_action has_active_builds has_completed_builds
  quiet_done a =
      let bare : u.active_build.metadata.name ≡ "" =
        ground (arith, eq_iff u.active_build.metadata.name "") in
      elim (Bool-cases (u.done_build.metadata.name == "")) [
        | inl none_done ↦ inl (no_builds bare ((eq_iff _ _).0 none_done))
        | inr some_done ↦
            let named : u.done_build.metadata.name ≢ "" =
              λ e. ground (arith, eq_iff u.done_build.metadata.name "") in
            elim (Bool-cases (u.done_build.status.phase == "Cancelled")) [
              | inl stopped ↦ inl (cancelled bare named ((eq_iff _ _).0 stopped))
              | inr ran ↦
                  elim (Bool-cases (
                    after now
                      (add_duration u.done_build.status.completion_timestamp c.idle_after))) [
                        | inl late ↦ inl (elapsed bare named (ltb→lt _ now late))
                        | inr soon ↦ inr (ground arith)
                      ]
            ]
      ]

  quiet_or_un_idle : IsQuiet ⊎ (build_action c now u ≡ un_idle)
  quiet_or_un_idle = elim (Bool-cases (has_active_builds u)) [
    | inl a ↦ quiet_active a
    | inr a ↦ quiet_done a
  ]

pub build_action-decides :
    (c : BuildCondition) (now : Time) (u : User) → build_action c now u ≢ no_action
build_action-decides c now u e = elim (quiet_or_un_idle c now u) [
  | inl q ↦ cc (e, IsQuiet→idle c now u q)
  | inr f ↦ cc (e, f)
]

-- The build condition asks to idle exactly if there are no builds, if the active build runs for
-- longer than `idle_long_build` or is new with more than two seconds from its start to its
-- completion, or if there is no active build and the done build was cancelled or was completed
-- longer ago than `idle_after`; and it asks to un-idle exactly in all other cases.
pub build_action_exact :
    (c : BuildCondition) (now : Time) (u : User)
    → ((build_action c now u ≡ idle) ↔ IsQuiet c now u)
      × ((build_action c now u ≡ un_idle) ↔ ¬ IsQuiet c now u)
build_action_exact c now u = elim (quiet_or_un_idle c now u) [
  | inl q ↦ let e = IsQuiet→idle c now u q in ((λ _. q, λ _. e), (λ h. cc, λ h. absurd (h q)))
  | inr e ↦ ((λ h. cc, IsQuiet→idle c now u), (λ _ q. cc (e, IsQuiet→idle c now u q), λ _. e))
]

-- The deployment config condition: no action before the first update of Jenkins is known, idle once
-- more than `idle_after` has passed since, and un-idle up to then.
pub dc_action_exact :
    (c : DcCondition) (now : Time) (u : User)
    → ((dc_action c now u ≡ no_action) ↔ (u.jenkins_last_update ≡ 0))
      × ((dc_action c now u ≡ idle)
          ↔ ((u.jenkins_last_update ≢ 0) × (add_duration u.jenkins_last_update c.idle_after < now)))
      × ((dc_action c now u ≡ un_idle)
          ↔ ((u.jenkins_last_update ≢ 0) × (now ≤ add_duration u.jenkins_last_update c.idle_after)))
unfolding dc_action
dc_action_exact c now u = (
  (λ h. ground arith, λ h. ground arith),
  (λ h. (λ e. ground arith, ground arith), λ h. ground (arith, h.0, h.1)),
  (λ h. (λ e. ground arith, ground arith), λ h. ground (arith, h.0, h.1)),
)
