-- ===== src/Api/Metrics.antt =====
-- api/v1/metrics.py: the export of the metrics and the endpoint for tests. Neither opens a session
-- nor asks for a user. The text that prometheus_client makes of its registry is the argument
-- `generate_latest`.
use smart_http_requester.Common.{ℕ, String, Option, none, some}

pub record Content : Type 0 where
  pub status_code : ℕ
  pub content : String
  pub media_type : Option String

abbrev pub metrics : {M : Type 0} → (M → String) → String → M → Content
metrics generate_latest content_type registry = record {
  status_code = 200;
  content = generate_latest registry;
  media_type = some content_type;
}

abbrev pub fake_status : ℕ → Content
fake_status status_code = record { status_code = status_code; content = ""; media_type = none }
