-- ===== src/UserIdler/Requests.antt =====
-- Which requests a check sends, and how the retry counters bound them.
use fabric8_jenkins_idler.Common.{ℕ, ◌+◌, pos, ◌≤ℤ◌, ◌≤◌, List, [], ◌∷◌, ◌≡◌, ◌⊎◌, arith}
use fabric8_jenkins_idler.Condition.{Action, no_action, idle, un_idle}
use fabric8_jenkins_idler.UserIdler.Interfaces.{
  Call, ask_enabled, send_idle, send_un_idle, Services,
}
use fabric8_jenkins_idler.UserIdler.Defs.{Machine, do_idle, do_un_idle, act, check_idle}

abbrev pub is_idle_request : Call → ℕ
is_idle_request (send_idle r) = 1
is_idle_request _ = 0

abbrev pub is_un_idle_request : Call → ℕ
is_un_idle_request (send_un_idle r) = 1
is_un_idle_request _ = 0

abbrev pub idle_requests : List Call → ℕ
idle_requests [] = 0
idle_requests (c ∷ cs) = is_idle_request c + idle_requests cs

abbrev pub un_idle_requests : List Call → ℕ
un_idle_requests [] = 0
un_idle_requests (c ∷ cs) = is_un_idle_request c + un_idle_requests cs

-- From `m` to `n` each counter grew by the requests of its kind, and none went past the limit.
pub record IsCounted (m n : Machine) : Type 0 where
  pub same_limit : n.max_retries ≡ m.max_retries
  pub idles : idle_requests n.calls + m.idle_attempts ≡ idle_requests m.calls + n.idle_attempts
  pub un_idles :
      un_idle_requests n.calls + m.un_idle_attempts ≡ un_idle_requests m.calls + n.un_idle_attempts
  pub idles_capped : (n.idle_attempts ≤ m.idle_attempts) ⊎ (pos n.idle_attempts ≤ℤ m.max_retries)
  pub un_idles_capped :
      (n.un_idle_attempts ≤ m.un_idle_attempts) ⊎ (pos n.un_idle_attempts ≤ℤ m.max_retries)

module _ (sv : Services) where
  do_idle-IsCounted : (m : Machine) → IsCounted m (do_idle sv m).1
  unfolding do_idle
  do_idle-IsCounted m = ground arith

  do_un_idle-IsCounted : (m : Machine) → IsCounted m (do_un_idle sv m).1
  unfolding do_un_idle
  do_un_idle-IsCounted m = ground arith

  act-IsCounted : (a : Action) (m : Machine) → IsCounted m (act sv a m).1
  unfolding act
  act-IsCounted no_action m = ground arith
  act-IsCounted idle m = ground (arith, do_idle-IsCounted m)
  act-IsCounted un_idle m = ground (arith, do_un_idle-IsCounted m)

  abbrev asked : Machine → Machine
  asked m = record m { calls = ask_enabled m.user.id ∷ m.calls }

  -- A check moves each retry counter up by exactly the requests of its kind that it sends, leaves the
  -- limit alone, and takes no counter past the limit that was not past it before.
  pub check_idle-IsCounted : (m : Machine) → IsCounted m (check_idle sv m).1
  unfolding check_idle
  check_idle-IsCounted m =
      ground (arith, act-IsCounted idle (asked m), act-IsCounted un_idle (asked m))

-- A check keeps the user's active build, done build and name.
pub check_idle_keeps_builds :
    (sv : Services) (m : Machine)
    → ((check_idle sv m).1.user.active_build ≡ m.user.active_build)
      × ((check_idle sv m).1.user.done_build ≡ m.user.done_build)
      × ((check_idle sv m).1.user.name ≡ m.user.name)
unfolding check_idle
check_idle_keeps_builds sv m = ground arith
