-- ===== src/OpenshiftClient/Watch.antt =====
-- WatchBuilds and WatchDeploymentConfigs of openshift_client.go: streams of lines that OpenShift
-- sends, until they end. A stream is what is read of it; the watch goes through the connections one
-- after the other, for as many of them as there are.
pub mod Stream
use fabric8_jenkins_idler.Common.{
  String, GoError, ◌==◌, has_prefix, has_suffix, nat_beq, Bool, true, false, not, ◌||◌, List, [],
  ◌∷◌, ◌++◌, Option, none, some, Result, ok, err, select, ◌≡◌, refl, arith, if◌then◌else◌, All,
  All-mono,
}
use fabric8_jenkins_idler.Http.{Response, status_ok}
use fabric8_jenkins_idler.Model.{Object, DcObject}

-- a line that reader.ReadBytes returns, with the error that came with it
pub record Read : Type 0 where
  pub line : String
  pub error : Option GoError

-- what follows a request of the watch: no response, or a response with the reads of its body
pub data Connection : Type 0 where
  failed : GoError → Connection
  opened : Response → List Read → Connection

-- the errors that end a stream
abbrev pub ends : Option GoError → Bool
ends none = false
ends (some e) = (e == "EOF") || (e == "unexpected EOF")

module _ {O : Type 0} (unmarshal : String → Result O) where
  -- an object and the objects after it
  abbrev pub keep : (O → Bool) → Result O → List O → List O
  keep wanted (err e) rest = []
  keep wanted (ok o) rest = if wanted o then o ∷ rest else rest

  -- The inner loop: the objects that it hands to the callback. It goes on whether the callback returns
  -- an error or not.
  unfoldable pub read_lines : (O → Bool) → List Read → List O
  read_lines wanted [] = []
  read_lines wanted (r ∷ reads) =
      let rest = read_lines wanted reads in
      if ends r.error then [] else keep wanted (unmarshal r.line) rest

  -- one round of the outer loop
  unfoldable pub read_connection : (O → Bool) → Connection → List O
  unfolding read_lines
  read_connection wanted (failed e) = []
  read_connection wanted (opened resp reads) =
      if nat_beq resp.status_code status_ok then read_lines wanted reads else []

  unfoldable pub watch : (O → Bool) → List Connection → List O
  unfolding read_connection
  watch wanted [] = []
  watch wanted (c ∷ cs) = read_connection wanted c ++ watch wanted cs

unfoldable pub watch_builds : (String → Result Object) → String → List Connection → List Object
unfolding watch
watch_builds unmarshal build_type = watch unmarshal (λ o. o.object.spec.strategy.type == build_type)

unfoldable pub watch_deployment_configs :
    (String → Result DcObject) → String → List Connection → List DcObject
unfolding watch
watch_deployment_configs unmarshal suffix =
    watch unmarshal (λ o. has_suffix o.object.metadata.namespace suffix)
