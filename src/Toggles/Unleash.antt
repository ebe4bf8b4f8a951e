-- ===== src/Toggles/Unleash.antt =====
-- internal/toggles/unleash_toggle.go: the users for whom the idler is enabled, as an Unleash server
-- says. The package unleash is an argument; the listener only logs.
use fabric8_jenkins_idler.Common.{
  String, GoError, ℕ, leb, Bool, true, Option, none, some, Result, ok, err, not, contains,
  if◌then◌else◌,
}

abbrev pub app_name : String
app_name = "jenkins-idler"

abbrev pub toggle_feature : String
toggle_feature = "jenkins.idler"

-- the seconds to wait for the client
abbrev pub max_wait_for_ready : ℕ
max_wait_for_ready = 10

-- unleash.NewClient by the name of the application and the address; the seconds after which the
-- client is ready, if ever; and IsEnabled, by the feature, the user and the answer to fall back on
pub record Unleash : Type 1 where
  pub Handle : Type 0
  pub new_client : String → String → Result Handle
  pub ready_after : Handle → Option ℕ
  pub is_enabled : Handle → String → String → Bool → Bool

module _ (lib : Unleash) where
  abbrev timed_out : GoError
  timed_out = "unleash client initalization timed out after 10 seconds"

  -- the `select`: of two cases that are ready at once the runtime takes either; here the client's
  abbrev pub awaited : lib.Handle → Option ℕ → Result lib.Handle
  awaited c none = err timed_out
  awaited c (some seconds) = if leb seconds max_wait_for_ready then ok c else err timed_out

  abbrev pub created : Result lib.Handle → Result lib.Handle
  created (err e) = err e
  created (ok c) = awaited c (lib.ready_after c)

  -- NewUnleashToggle
  unfoldable pub new_unleash_toggle : String → Result lib.Handle
  new_unleash_toggle host_url = created (lib.new_client app_name host_url)

  -- IsIdlerEnabled
  unfoldable pub unleash_enabled : lib.Handle → String → Result Bool
  unleash_enabled c uid = ok (lib.is_enabled c toggle_feature uid true)

-- whether OnError logs the error
unfoldable pub on_error : String → Bool
on_error e = not (contains e "invalid character")
