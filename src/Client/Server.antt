-- ===== src/Client/Server.antt =====
-- internal/api/v1/stats.go: the query parameters by which the server filters.
use webalytics.Common.{String, List, [], ◌∷◌}

abbrev pub parse_filters : List String
parse_filters =
    "hostname" ∷ "path" ∷ "route" ∷ "referrer_host" ∷ "utm_source" ∷ "country" ∷ "device_type"
    ∷ "browser" ∷ "os" ∷ "environment" ∷ "event" ∷ []
