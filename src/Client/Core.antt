-- ===== src/Client/Core.antt =====
-- packages/dashboard-react/src/client.ts: the configurations and `createClient`. What a call throws
-- is a value.
use webalytics.Common.{ℕ, String, Bool, true, false, Option, if◌then◌else◌, strip_slashes}
use webalytics.Client.Types.{ClientConfig, server, public}

pub data Failure : Type 0 where
  not_on_server : Failure
  invalid_date : Failure
  invalid_json : Failure
  http : (message : String) → Failure

pub data Result {ℓ} (A : Type ℓ) : Type ℓ where
  ok : A → Result A
  throw : Failure → Result A

pub record Client : Type 0 where
  pub config : ClientConfig
  pub bearer : String
  pub base_path : String
  pub base : String
  pub revalidate : Option ℕ

abbrev pub host_of : ClientConfig → String
host_of (server host token site_id r) = host
host_of (public host token site_id r) = host

abbrev pub site_of : ClientConfig → String
site_of (server host token site_id r) = site_id
site_of (public host token site_id r) = site_id

abbrev pub token_of : ClientConfig → String
token_of (server host token site_id r) = token
token_of (public host token site_id r) = token

abbrev pub revalidate_of : ClientConfig → Option ℕ
revalidate_of (server host token site_id r) = r
revalidate_of (public host token site_id r) = r

abbrev pub is_public : ClientConfig → Bool
is_public (server host token site_id r) = false
is_public (public host token site_id r) = true

-- `assertServerOnly`, given whether there is a `window`.
unfoldable pub assert_server_only : Bool → Result (Unit {0})
assert_server_only in_browser = if in_browser then throw not_on_server else ok tt

abbrev pub client_of : ClientConfig → Client
client_of config = record {
  config = config;
  bearer = token_of config;
  base_path = if is_public config then "/public/v1" else "/v1";
  base = strip_slashes (host_of config);
  revalidate = revalidate_of config;
}

-- `createClient`, up to the object of methods that it returns.
unfoldable pub create_client : Bool → ClientConfig → Result Client
unfolding assert_server_only
create_client in_browser config =
    if is_public config
    then ok (client_of config)
    else elim (assert_server_only in_browser) [ ok _ ↦ ok (client_of config) | throw e ↦ throw e ]
