-- ===== src/Lib.antt =====
-- A model of fabric8-jenkins-idler, which scales the Jenkins of each user of an OpenShift cluster down
-- when no build needs it, and up again.
--
-- The parts, with the files that model them, and how they interact:
--
-- * Common, Http and ConcurrentMap hold what the program takes from Go and from libraries: texts, 64-bit
--   products, instants in nanoseconds, pairs of a value and an error, the HTTP response, and the
--   concurrent map as an interface whose laws are its documentation's (an association list meets it).
-- * Model (internal/model): the OpenShift objects, the user record and the set of disabled users.
-- * Util (internal/util): errors in a list, suffixes, membership and checks of settings.
-- * Condition (internal/condition): `build_action`, `dc_action` and `user_eval` are the three `Eval`
--   methods, `eval` is `Conditions.Eval` over the map in the order of its visit. The clock, `http.Get`
--   and the decoder are the record `Outside`.
-- * Tenant (internal/tenant): `get_tenant_info_by_namespace` and `has_reached_max_capacity`.
-- * UserIdler (internal/idler/user_idler.go): the record and the methods in UserIdler/Defs, over the
--   interfaces that the struct holds (`Services`), whose answers may depend on all calls before; the
--   calls are recorded, newest first. UserIdler/Loop is `Run`: one step for each case of the `select`
--   and for a sender of the channel. Runs are lists of events, so they need no fuel. UserIdler/Loop/Limiter
--   has an abstract limiter of requests, UserIdler/Watched the conditions that NewUserIdler sets.
-- * Controller (internal/openshift): Controller/Defs has `handle_build`, `handle_deployment_config` and
--   `create_if_not_exist`, over the maps in Controller/UserIdlerMap and Controller/UnknownUsersMap;
--   Controller/Events puts the two watch goroutines and the user idlers
--   together, as steps in any order, with `sendUserToIdler` as a delivery or a timeout. Its `Rules` are
--   what a property of all user idlers needs of each handler; Separation and Sends give them.
--   Controller/Events/Steps has the way of one build event, of which Waking and Lost are made up.
--   Controller/Creation has createIfNotExist in the steps between which the two goroutines can take
--   turns, where Controller/Defs has the whole of it as one step.
-- * OpenshiftClient (internal/openshift/client/openshift_client.go): the requests of each call, in
--   order, and the checks of the answers; the watches as what they hand to the callback. `http.Client`,
--   `http.NewRequest` and `encoding/json` are the record `Server`. The outer loop of a watch is
--   modelled for any finite list of connections, its inner loop for any finite list of reads.
-- * Auth (internal/auth/auth_client.go): the client of the auth service. ValidateResponse is in Cluster.
--   Auth/Requests has the three calls that the program makes of internal/auth/client, which goa generates,
--   with the server and the libraries as the record `AuthServer`.
-- * Cluster (internal/cluster): the list of clusters with their tokens, the view, its text and the
--   resolver.
-- * Api (internal/api/api.go): each handler as a reply and the calls that it makes; Api/Timed has the
--   loops of Idle and UnIdle with the recorder of durations, which Metric (metric) models up to the
--   histogram of Prometheus.
-- * Router (internal/router/router.go): the table of routes and the dispatch of a request to the handlers
--   of Api, with httprouter as a parameter, and runs of requests.
-- * Toggles (internal/toggles): the fixed list of users, and the toggle of an Unleash server.
-- * Tokens (internal/token): the service account's token in Tokens, the clusters' in Tokens/Target, and
--   their decryption in Tokens/Decode.
-- * Configuration (internal/configuration/viper.go): the check of the settings; Configuration/Settings
--   has the defaults and the getters, Configuration/Printed what is logged of the settings.
-- * Program (cmd/fabric8-jenkins-idler): Program/Startup is `main` up to `Idler.Run`, as a chain of
--   steps that go on or stop the process, with `NewService` of internal/cluster/service.go;
--   Program/Shutdown is `Idler.Run` with its wait group and context, one step for each thing that a
--   goroutine of the group can do, with `Router.Start` and `UserIdler.Run` by their part in the group.
--   Program/Wiring gives a user idler its clients: the interfaces of UserIdler/Interfaces, met by the
--   OpenShift client, the tenant client and the features; Program/Scaled follows a check, and
--   Program/Woken and Program/Disabled an event, to the requests that OpenShift gets; Program/Checked
--   and Program/Features follow main, and Program/Logging is `init`.
-- * Tests has the theorems at concrete inputs.
--
-- `main` reads the settings, gets the tokens and the clusters, and starts two watches for each cluster.
-- A watch of OpenshiftClient calls the handlers of Controller. A handler finds or creates the user
-- idler of the namespace by the tenant client, builds the next user record on the one that the idler
-- has, and sends it into the idler's channel. The idler evaluates its conditions and calls the
-- OpenShift client. The API calls the same client, and changes the set of disabled users that the
-- handlers read.
--
-- Bounds: `int` of Go is an integer; only the products that make durations wrap around at 64 bits, as
-- in Go. Instants are nanoseconds since the year 1 and do not overflow. Counters of retries only grow
-- up to their limit.
--
-- Not modelled: what is written to the log, HTTP headers other than those of the requests that are
-- built, the matching of paths by httprouter, the histogram of Prometheus, and the calls of the
-- generated client of the auth service that the program does not make. They are input and output,
-- libraries or generated code. viper, unleash, base64, openpgp and the decoders of JSON are
-- parameters.
pub mod Common
pub mod Metric
pub mod Model
pub mod ConcurrentMap
pub mod Util
pub mod Http
pub mod Auth
pub mod Condition
pub mod Tenant
pub mod OpenshiftClient
pub mod UserIdler
pub mod Controller
pub mod Cluster
pub mod Api
pub mod Router
pub mod Toggles
pub mod Tokens
pub mod Configuration
pub mod Program
pub mod Tests
