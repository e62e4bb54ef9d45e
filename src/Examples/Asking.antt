-- ===== src/Examples/Asking.antt =====
-- The dashboard's clients and the settings of the dashboard's server.
use webalytics.Common.{
  ◌+++◌, map, length, String, true, Option, none, some, List, [], ◌∷◌, ◌≡◌, refl, All, ◌==◌,
  if◌then◌else◌, strip_slashes, get_or_else,
}
use webalytics.Client.Types.{w7d, TimeWindow, hostnames}
use webalytics.Client.Query.{lookup, expand_window}
use webalytics.Client.Core.{ok, create_client, client_of, is_public, host_of, site_of, token_of}
use webalytics.Client.Calls.{
  Query, realtime, summary, Request, path_for, request, to_qs, request_to, site_override, endpoint,
}
use webalytics.Client.Angular as Angular
use webalytics.Client.Server.{parse_filters}
use webalytics.Client.Access.{browser_request}
use webalytics.Client.Params.{filters_unread}
use webalytics.Client.Agreement.{clients_agree, url_and_header}
use webalytics.App.Overview.{overview_page, IsAuthorized, overview_authorized}
use webalytics.App.Env.{Sources, api_host, api_token, site_uuid}
use webalytics.Format.Core.{decimal}
use webalytics.Examples.Data.{hours, shop_dashboard}

-- A serialisation that shows the first value alone.
abbrev first_value : List (String × String) → String
first_value [] = ""
first_value ((k, v) ∷ ps) = k +++ ("=" +++ v)

abbrev live : Query hours
live = realtime none

abbrev on_shop : Query hours
on_shop = summary w7d none (some ((hostnames, "shop.test" ∷ []) ∷ []))

abbrev live_request : Request
live_request =
    request_to hours decimal first_value (client_of shop_dashboard)
      "/public/v1/sites/s1/stats/realtime"

browser_request_example :
    (is_public shop_dashboard ≡ true)
    × (live_request.authorization ≡ "Bearer " +++ token_of shop_dashboard)
    × ((rest : String) × (live_request.url
          ≡ strip_slashes (host_of shop_dashboard)
            +++ (("/public/v1"
                  +++ ("/sites/"
                      +++ (get_or_else (site_override hours live) (site_of shop_dashboard)
                          +++ ("/stats/" +++ endpoint hours live))))
                +++ rest)))
unfolding create_client request path_for
browser_request_example =
    browser_request hours decimal first_value shop_dashboard (client_of shop_dashboard) live
      live_request refl refl

abbrev span : TimeWindow
span = record { from = "2026-01-01T00:00:00.000Z"; to = "2026-01-08T00:00:00.000Z" }

filters_unread_example : All (λ k. lookup k (to_qs hours decimal span on_shop) ≡ none) parse_filters
filters_unread_example = filters_unread hours decimal span on_shop

clients_agree_example :
    Angular.request hours decimal first_value (Angular.angular_client shop_dashboard) on_shop
    ≡ url_and_header hours decimal first_value shop_dashboard
        (request hours decimal first_value (client_of shop_dashboard) on_shop)
clients_agree_example = clients_agree hours decimal first_value shop_dashboard on_shop

abbrev setting : String → Option String
setting name =
    if name == "WEBALYTICS_API_HOST"
    then some "https://api.test"
    else if name == "WEBALYTICS_TOKEN"
    then some "wb_1"
    else none

abbrev container : Sources
container = record { env = setting; seed_file = none; trim = λ s. s }

-- A container whose three settings are in the environment.
abbrev with_uuid : Sources
with_uuid = record {
  env = λ name. if name == "WEBALYTICS_SITE_UUID" then some "s1" else setting name;
  seed_file = none;
  trim = λ s. s;
}

overview_authorized_example :
    (rs : List Request) × (overview_page hours decimal first_value with_uuid ≡ ok (map ok rs))
    × (length rs ≡ 8)
    × All (IsAuthorized hours decimal first_value "https://api.test" "wb_1" "s1") rs
unfolding expand_window api_host api_token site_uuid
overview_authorized_example =
    overview_authorized hours decimal first_value "https://api.test" "wb_1" "s1"
      (record { from = "2026-01-01T00:00:00.000Z"; to = "2026-01-01T00:00:00.000Z" }) refl with_uuid
      refl refl refl
