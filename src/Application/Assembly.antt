-- ===== src/Application/Assembly.antt =====
-- application.py: the FastAPI object and the middlewares added to it.
use smart_http_requester.Common.{
  String, Bool, false, Option, none, some, List, [], ◌∷◌, if◌then◌else◌, str_eq,
}
use smart_http_requester.Session.{os_error, Outcome, ok, err}
use smart_http_requester.Settings.{Settings}

pub data Layer : Type 0 where
  rate_limit_layer metrics_layer : Layer

-- The outermost middleware comes first; the lifespan and the router are the same for every object.
pub record App : Type 0 where
  pub title : String
  pub openapi_url : String
  pub debug : Bool
  pub description : String
  pub layers : List Layer

-- `open` and `read`, for what description.md holds, where it can be read.
abbrev pub get_description : Option String → Outcome String
get_description none = err os_error
get_description (some content) = ok content

-- The middleware that is added last is the outermost.
abbrev pub add_middleware : Layer → App → App
add_middleware layer a = record a { layers = layer ∷ a.layers }

abbrev pub is_one : Option String → Bool
is_one none = false
is_one (some s) = str_eq s "1"

-- `running` is the variable PYTEST_RUNNING.
unfoldable pub app : Option String → Option String → Settings → Outcome App
app content running s = elim (get_description content) [
  | err e ↦ err e
  | ok description ↦
      let made : App = record {
        title = "HTTP-requester API documentation";
        openapi_url = "/api/openapi.json";
        debug = s.debug;
        description = description;
        layers = [];
      } in
      ok (
        add_middleware metrics_layer
          (if is_one running then made else add_middleware rate_limit_layer made))
]
