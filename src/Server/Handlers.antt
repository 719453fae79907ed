-- ===== src/Server/Handlers.antt =====
-- backend/src/server/*/v1: what the handlers share, each of which has its own copy in the code. The
-- helpers throw the field that they refuse; the end of a handler is its catch clauses.
pub mod Owned
pub mod Boards
pub mod Statuses
pub mod Tasks
pub mod Queries
use Prim.Native.String.{String}
use hse_project_2026_chronos.Base.{
  ℕ, suc, zero, Bool, true, false, not, ◌||◌, Option, none, some, List, [], ◌∷◌, ◌++◌, ltb, leb,
  ◌==◌, if◌then◌else◌, codes, length,
}
use hse_project_2026_chronos.Base.Int.{ℤ, pos, negsuc, leb_ℤ, ltb_ℤ, pos_part}
use hse_project_2026_chronos.Json.{
  Json, Members, Items, null, bool, integer, string, array, object, float, member, end, get,
}
use hse_project_2026_chronos.Server.Rows.{Text}
use hse_project_2026_chronos.Server.Http.{
  Method, Request, Response, Libraries, Number, get_method, post, patch, put, delete_method,
  other_method, parsed, not_a_number, out_of_range, str, field, contains, find_param,
  build_error_response,
}
use hse_project_2026_chronos.Server.Action.{
  World, M, Result, Failure, ok, failed, answered, missing_field, bad_type, bad_value,
  invalid_argument, id_limit,
}

abbrev pub method_is : Method → Method → Bool
method_is get_method get_method = true
method_is post post = true
method_is patch patch = true
method_is put put = true
method_is delete_method delete_method = true
method_is other_method other_method = true
method_is _ _ = false

-- `json::parse` and `is_object`, with the handler's words for what fails.
unfoldable pub object_body : String → String → Option Json → Result Members
object_body invalid no_object (some (object ms)) = ok ms
object_body invalid no_object (some _) =
    failed (answered (build_error_response 400 "INVALID_FORMAT" (codes no_object) end))
object_body invalid no_object none =
    failed (answered (build_error_response 400 "INVALID_FORMAT" (codes invalid) end))

-- `collect_missing_fields`, over the handler's keys.
unfoldable pub collect_missing_fields : List String → Members → Members
unfolding contains
collect_missing_fields [] body = end
collect_missing_fields (key ∷ keys) body =
    if contains body key
    then collect_missing_fields keys body
    else field key (str "Missing required field") (collect_missing_fields keys body)

unfoldable pub fields_present : Members → Result (Unit {0})
fields_present end = ok tt
fields_present (member k v rest) = failed (
    answered (
      build_error_response 400 "MISSING_FIELD" (codes "Missing required fields") (member k v rest)))

module _ (lib : Libraries) where
  unfoldable pub positive_int : Text → Option ℤ → Result ℕ
  positive_int key none = failed (bad_type key)
  positive_int key (some (pos (suc n))) = ok (suc n)
  positive_int key (some _) = failed (bad_value key)

  unfoldable pub non_negative_int : Text → Option ℤ → Result ℕ
  non_negative_int key none = failed (bad_type key)
  non_negative_int key (some (pos n)) = ok n
  non_negative_int key (some (negsuc n)) = failed (bad_value key)

  unfoldable pub require_positive_int_field : Members → String → Result ℕ
  unfolding positive_int
  require_positive_int_field body key = elim (get (codes key) body) [
    | none ↦ failed (missing_field (codes key))
    | some v ↦ positive_int (codes key) (lib.get_int v)
  ]

  unfoldable pub require_non_negative_int_field : Members → String → Result ℕ
  unfolding non_negative_int
  require_non_negative_int_field body key = elim (get (codes key) body) [
    | none ↦ failed (missing_field (codes key))
    | some v ↦ non_negative_int (codes key) (lib.get_int v)
  ]

  -- `std::stoll` of a parameter of the query, from 1 to the largest int.
  unfoldable pub positive_number : Text → Text → Number → Result ℕ
  positive_number key value (parsed n chars) =
      if not (chars == length value)
      then failed (bad_type key)
      else if leb_ℤ n (pos 0) || not (ltb_ℤ n (pos id_limit))
      then failed (bad_value key)
      else ok (pos_part n)
  positive_number key value not_a_number = failed (bad_type key)
  positive_number key value out_of_range = failed (bad_type key)

  -- `require_int_field` of a query.
  unfoldable pub require_int_param : Request → String → Result ℕ
  unfolding positive_number find_param
  require_int_param req key = elim req.params [
    | none ↦ failed (bad_type (codes key))
    | some params ↦ elim (find_param (codes key) params) [
      | none ↦ failed (missing_field (codes key))
      | some value ↦ positive_number (codes key) value (lib.stoll value)
    ]
  ]

unfoldable pub string_value : Text → Json → Result Text
string_value key (string t) = ok t
string_value key _ = failed (bad_type key)

unfoldable pub require_string_field : Members → String → Result Text
unfolding string_value
require_string_field body key = elim (get (codes key) body) [
  | none ↦ failed (missing_field (codes key))
  | some v ↦ string_value (codes key) v
]

unfoldable pub optional_string : Text → Option Json → Result Text
unfolding string_value
optional_string key none = ok []
optional_string key (some null) = ok []
optional_string key (some v) = string_value key v

unfoldable pub optional_string_field : Members → String → Result Text
unfolding optional_string
optional_string_field body key = optional_string (codes key) (get (codes key) body)

-- The catch clauses give a response for each exception; an early return has its own.
abbrev pub response_to : (Failure → Response) → Failure → Response
response_to clauses (answered response) = response
response_to clauses f = clauses f

unfoldable pub catching : (Failure → Response) → Result Response × World → Response × World
catching clauses (ok response, w) = (response, w)
catching clauses (failed f, w) = (response_to clauses f, w)

-- `json{{field, message}}`.
abbrev pub detail : Text → Text → Members
detail key message = member key (string message) end
