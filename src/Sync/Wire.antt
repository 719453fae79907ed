-- ===== src/Sync/Wire.antt =====
-- What the sync managers read from a JSON object (QJsonValue's conversions and
-- frontend/sync/sync_json_helpers.hpp), and the requests that they hand to the NetworkManager.
use hse_project_2026_chronos.Base.{
  ◌^◌, Bool, true, false, not, ◌||◌, Option, none, some, [], ltb, if◌then◌else◌, codes, is_empty,
}
use hse_project_2026_chronos.Base.Int.{ℤ, pos, negsuc, eq_ℤ, ltb_ℤ}
use hse_project_2026_chronos.Json.{Json, Members, null, bool, integer, string, object, end, get, at}
use hse_project_2026_chronos.Local.Rows.{Text, Env}

-- `QJsonValue::toInt`: 0 for what is no `int`.
unfoldable pub to_int : Option Json → ℤ
to_int (some (integer (pos n))) = if ltb n (2 ^ 31) then pos n else pos 0
to_int (some (integer (negsuc n))) = if ltb n (2 ^ 31) then negsuc n else pos 0
to_int _ = pos 0

-- `QJsonValue::toString`: empty for what is no string.
unfoldable pub to_text : Option Json → Text
to_text (some (string t)) = t
to_text _ = []

unfoldable pub is_null : Option Json → Bool
is_null (some null) = true
is_null _ = false

unfoldable pub to_bool : Option Json → Bool
to_bool (some (bool b)) = b
to_bool v = not (eq_ℤ (to_int v) (pos 0))

-- `toObject` and `["data"]`: the empty object for what is none.
unfoldable pub to_object : Option Json → Members
to_object (some (object ms)) = ms
to_object _ = end

unfoldable pub response_data : Json → Members
unfolding to_object at
response_data response = to_object (at (codes "data") response)

unfoldable pub or_fallback : Members → Text → Option Text → Text
unfolding to_text
or_fallback obj value none = value
or_fallback obj value (some fallback_field) =
    if is_empty value then to_text (get fallback_field obj) else value

unfoldable pub json_timestamp : Env → Members → Text → Option Text → Text
unfolding or_fallback to_text
json_timestamp env obj field fallback_field =
    let value = or_fallback obj (to_text (get field obj)) fallback_field in
    if is_empty value then env.now_iso else value

pub data Entity : Type 0 where
  user board status task pomodoro : Entity

pub data Operation : Type 0 where
  create update delete : Operation
  unknown_operation : Operation

pub data Endpoint : Type 0 where
  boards_create_url boards_edit_url boards_delete_url : Endpoint
  statuses_create_url statuses_edit_url statuses_delete_url : Endpoint
  tasks_create_url tasks_edit_url tasks_delete_url : Endpoint
  user_edit_info_url : Endpoint

pub data Method : Type 0 where
  post patch put delete_method : Method

-- A call of `syncPOST`, `syncPATCH`, `syncPUT` or `syncDELETE`.
pub record Push : Type 0 where
  pub method : Method
  pub endpoint : Endpoint
  pub body : Members
  pub entity : Entity
  pub local_id : ℤ
  pub operation : Operation

-- `codeIsError` of the coordinator, and the same test in the managers.
unfoldable pub code_is_error : ℤ → Bool
code_is_error code = ltb_ℤ code (pos 200) || not (ltb_ℤ code (pos 300))
