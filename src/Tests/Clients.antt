-- ===== src/Tests/Clients.antt =====
-- Runs of the clients of OpenShift and of the cluster service.
use fabric8_jenkins_idler.Common.{
  String, ◌==◌, List, [], ◌∷◌, none, some, Result, ok, err, has_suffix,
}
use fabric8_jenkins_idler.Model.{Object, DcObject, Endpoint}
use fabric8_jenkins_idler.OpenshiftClient.{idled_endpoint}
use fabric8_jenkins_idler.OpenshiftClient.Watch.{
  Read, Connection, failed, opened, watch_builds, watch_deployment_configs,
}
use fabric8_jenkins_idler.OpenshiftClient.Watch.Stream.{AreHanded, watched-AreHanded}
use fabric8_jenkins_idler.Tests.Data.{build_event_1, good}

abbrev reads : List Read
reads =
    (record { line = "{}"; error = none })
    ∷ (record { line = ""; error = some "EOF" })
    ∷ (record { line = "{}"; error = none })
    ∷ []

abbrev unmarshal : String → Result Object
unmarshal s = ok build_event_1

abbrev unmarshal_dc : String → Result DcObject
unmarshal_dc s = err "no deployment config"

-- a request that fails, and two responses, the first of them with the status 403
abbrev connections : List Connection
connections =
    failed "no route to host"
    ∷ opened (record good { status_code = 403 }) reads
    ∷ opened good reads
    ∷ []

watched-AreHanded_example :
    AreHanded unmarshal
      (λ o. o.object.spec.strategy.type == "JenkinsPipeline")
      connections
      (watch_builds unmarshal "JenkinsPipeline" connections)
    × AreHanded unmarshal_dc
        (λ o. has_suffix o.object.metadata.namespace "-jenkins")
        connections
        (watch_deployment_configs unmarshal_dc "-jenkins" connections)
watched-AreHanded_example =
    watched-AreHanded unmarshal unmarshal_dc "JenkinsPipeline" "-jenkins" connections

-- another decoder of endpoints, with another annotation
abbrev other_decoder : String → Result Endpoint
other_decoder s = ok (idled_endpoint "never" "jenkins")
