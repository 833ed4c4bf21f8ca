-- ===== src/Tests/Metrics.antt =====
-- The metrics of one request.
use Prim.Native.Char.{Char}
use smart_http_requester.Middleware.Endpoint.{
  within, uuid_pattern, match, match_number, sub, get_endpoint_name,
}
use smart_http_requester.Middleware.Endpoint.Substitution.{occurs}
use smart_http_requester.Middleware.Endpoint.Labels.{get_endpoint_name-hides}
use smart_http_requester.Common.{Bool, false, ◌≡◌, refl, String, some}

labels_code : Unit {0}
unfolding match match_number sub get_endpoint_name
labels_code = tt

abbrev ascii_digit : Char → Bool
ascii_digit = within b'0' b'9'

abbrev an_id : String
an_id = "0f8fad5b-d9cb-469f-a165-70867728950E"

-- The second of two numbers in a row, and one at the end, stay.
labels_test :
    (get_endpoint_name ascii_digit "/v1/users/12/tasks" ≡ some "/v1/users/{id}/tasks")
    × (get_endpoint_name ascii_digit "/v1/1/2/x" ≡ some "/v1/{id}/2/x")
    × (get_endpoint_name ascii_digit "/v1/requests/12" ≡ some "/v1/requests/12")
unfolding labels_code
labels_test = (refl, refl, refl)

an_id-matches : match uuid_pattern an_id ≡ some ""
unfolding labels_code
an_id-matches = refl

get_endpoint_name-hides_example :
    (endpoint : String) × (get_endpoint_name ascii_digit "/v1/requests/12" ≡ some endpoint)
    × (occurs (match uuid_pattern) endpoint ≡ false)
get_endpoint_name-hides_example = get_endpoint_name-hides ascii_digit "/v1/requests/12"
