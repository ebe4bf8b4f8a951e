-- ===== src/Cluster/Printed.antt =====
-- internal/cluster/cluster.go and cluster_view.go: the clusters as text, which leaves out their users
-- and tokens.
use fabric8_jenkins_idler.Common.{String, ◌<>◌, List, [], ◌∷◌, map, ◌≡◌, refl, ap}
use fabric8_jenkins_idler.Cluster.{Cluster}

abbrev spaced : List String → String
spaced [] = ""
spaced (s ∷ []) = s
spaced (s ∷ t ∷ ts) = s <> (" " <> spaced (t ∷ ts))

-- a slice of texts in the format `%v` or `%+v` of package `fmt`
abbrev slice_text : List String → String
slice_text ss = "[" <> (spaced ss <> "]")

-- Cluster's String
unfoldable pub cluster_string : Cluster → String
cluster_string c = slice_text (
    ("APIURL: " <> c.api_url)
    ∷ ("ConsoleURL: " <> c.console_url)
    ∷ ("MetricsURL: " <> c.metrics_url)
    ∷ ("LoggingURL: " <> c.logging_url)
    ∷ ("AppDNS: " <> c.app_dns)
    ∷ ("Type: " <> c.type)
    ∷ [])

-- the view's String, in which `%v` takes each cluster's own
unfoldable pub view_string : List Cluster → String
unfolding cluster_string
view_string clusters = slice_text (map cluster_string clusters)

abbrev pub without_secrets : Cluster → Cluster
without_secrets c = record c { user = ""; token = "" }

map-same : (cs : List Cluster) → map cluster_string (map without_secrets cs) ≡ map cluster_string cs
unfolding cluster_string
map-same [] = refl
map-same (c ∷ cs) = ap (λ rest. cluster_string c ∷ rest) (map-same cs)

-- The text of the view, which the log shows, does not depend on users and tokens.
pub view_string-hides : (cs : List Cluster) → view_string (map without_secrets cs) ≡ view_string cs
unfolding view_string
view_string-hides cs = ap slice_text (map-same cs)
