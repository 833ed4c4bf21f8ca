-- ===== src/Schemas/Bounds.antt =====
-- What validation guarantees of a request body, and what it does not.
use smart_http_requester.Common.{◌≡◌, refl, some}
use smart_http_requester.Schemas.{Method, method_text, literal_method}

-- A method that is written out is read back.
pub literal_method-method_text : (m : Method) → literal_method (method_text m) ≡ some m
unfolding literal_method
literal_method-method_text Method.get = refl
literal_method-method_text Method.post = refl
literal_method-method_text Method.put = refl
literal_method-method_text Method.delete = refl
literal_method-method_text Method.patch = refl
