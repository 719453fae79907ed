-- ===== src/Server/Http.antt =====
-- backend/src/server/utils/response_utils.cpp: requests and responses, without their headers. A
-- request is what Beast, Boost.URL and nlohmann::json read from it; the other libraries are the
-- record `Libraries`.
use Prim.Native.String.{String}
use hse_project_2026_chronos.Base.{
  ℕ, Bool, true, false, Option, none, some, List, [], ◌∷◌, text_eq, codes, if◌then◌else◌,
}
use hse_project_2026_chronos.Base.Int.{ℤ, pos}
use hse_project_2026_chronos.Json.{
  Json, Members, Items, integer, string, object, member, end, nil, cons, get,
}
use hse_project_2026_chronos.Server.Rows.{Text}

pub data Method : Type 0 where
  get_method post patch put delete_method other_method : Method

-- `std::stoll`, with the number of bytes that it read.
pub data Number : Type 0 where
  parsed : ℤ → ℕ → Number
  not_a_number out_of_range : Number

-- `params` is the query of the target, or none where the target is no origin form; `body` is the
-- JSON value of the body, or none where it is no JSON.
pub record Request : Type 0 where
  pub method : Method
  pub params : Option (List (Text × Text))
  pub body : Option Json

-- `get_int` is `get<int>` of a JSON value, or none for a type_error; `iso8601` formats a time as
-- `time_to_string_iso8601` does; `get_time` is `std::get_time` with "%Y-%m-%dT%H:%M:%S" on the whole
-- text, and `timegm`. `stored_deadline` is what the database gives back for a deadline that is
-- written as TaskRepository::time_to_string formats it, in the server's time zone.
pub record Libraries : Type 0 where
  pub get_int : Json → Option ℤ
  pub stoll : Text → Number
  pub char_length : Text → ℕ
  pub iso8601 : ℤ → Text
  pub get_time : Text → Option ℤ
  pub stored_deadline : ℤ → ℤ
  pub hash_password : Text → Text
  pub verify_password : Text → Text → Bool
  pub create_token : ℕ → Option Text
  pub connection_error : Text
  pub unique_error : Text
  pub sql_error : Text
  pub type_error : Text
  pub range_error : Text

pub record Response : Type 0 where
  pub status : ℕ
  pub content : Option Json

abbrev pub str : String → Json
str s = string (codes s)

abbrev pub field : String → Json → Members → Members
field key v rest = member (codes key) v rest

-- `nlohmann::json::contains`.
abbrev pub is_found : Option Json → Bool
is_found none = false
is_found (some v) = true

unfoldable pub contains : Members → String → Bool
contains ms key = is_found (get (codes key) ms)

unfoldable pub add_details : Members → Members
add_details end = end
add_details (member k v rest) = field "details" (object (member k v rest)) end

-- `build_error_response`.
unfoldable pub build_error_response : ℕ → String → Text → Members → Response
unfolding add_details
build_error_response status code message details = record {
  status = status;
  content = some (
      object (
        field "error"
          (object
            (field "code" (str code) (field "message" (string message) (add_details details))))
          end));
}

-- `build_json_response` with the status 200 and the member "data".
unfoldable pub ok_response : Json → Response
ok_response value = record { status = 200; content = some (object (field "data" value end)) }

unfoldable pub no_content : Response
no_content = record { status = 204; content = none }

abbrev pub number : ℕ → Json
number n = integer (pos n)

unfoldable pub items : List Json → Items
items [] = nil
items (j ∷ js) = cons j (items js)

unfoldable pub find_param : Text → List (Text × Text) → Option Text
find_param key [] = none
find_param key ((k, v) ∷ rest) = if text_eq k key then some v else find_param key rest
