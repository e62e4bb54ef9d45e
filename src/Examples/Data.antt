-- ===== src/Examples/Data.antt =====
-- A site, a visitor's browser and their surroundings.
use webalytics.Common.{ℕ, String, true, false, none, some, [], ◌∷◌}
use webalytics.Tracker.Types.{InitConfig, prefix}
use webalytics.Tracker.Browser.{Location, Globals}
use webalytics.Client.Types.{ClientConfig, public}
use webalytics.Client.Query.{Calendar}

abbrev pub place : String → Location
place path = record { pathname = path; search = ""; href = "https://shop.test"; host = "shop.test" }

abbrev pub page_at : String → Globals
page_at path = record {
  location = some (place path);
  document = some (record { referrer = ""; title = "Shop" });
  navigator = some (record {
    language = "en";
    global_privacy_control = false;
    do_not_track = none;
    ms_do_not_track = none;
  });
  window = some (record { screen = none; inner_width = 800; inner_height = 600 });
  now = 1000;
  new_url = λ href base. some (record { host = "other.test"; href = href });
}

-- The same page, in a browser with Do Not Track.
abbrev pub private_page : Globals
private_page = record (page_at "/") {
  navigator = some (record {
    language = "en";
    global_privacy_control = false;
    do_not_track = some "1";
    ms_do_not_track = none;
  });
}

abbrev pub shop : InitConfig
shop = record {
  site_id = "wb_1";
  host = "https://in.test/";
  auto_pageviews = none;
  auto_web_vitals = some false;
  auto_outbound = some true;
  respect_dnt = none;
  exclude_paths = none;
  environment = some "staging";
  release = none;
  route = none;
  debug = none;
  transport = false;
  location = none;
}

abbrev pub admin_hidden : InitConfig
admin_hidden = record shop { exclude_paths = some (prefix "/admin" ∷ []) }

-- A calendar that counts hours.
abbrev pub hours : Calendar
hours = record {
  Date = ℕ;
  now = 1000;
  back_hours = λ n d. d;
  back_days = λ n d. d;
  to_iso_string = λ d. some "2026-01-01T00:00:00.000Z";
}

abbrev pub shop_dashboard : ClientConfig
shop_dashboard = public "https://api.test/" "wb_pub_1" "s1" none
