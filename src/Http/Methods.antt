-- ===== src/Http/Methods.antt =====
-- src/http/http.cpp: the two maps between methods and their names.
use oos.Prelude.{◌≡◌, refl}
use oos.Http.Types.{Method, unknown, get, post, put, del, options, head, to_string, to_method}

-- The name of a method is read as the method; `UNKNOWN` is read as the unknown method.
pub to_method-to_string : (m : Method) → to_method (to_string m) ≡ m
unfolding to_method to_string
to_method-to_string unknown = refl
to_method-to_string get = refl
to_method-to_string post = refl
to_method-to_string put = refl
to_method-to_string del = refl
to_method-to_string options = refl
to_method-to_string head = refl
