-- ===== src/Server/Action.antt =====
-- A handler as an action: on the tables and the sequences, with the exceptions of C++. `answered`
-- is an early return. A connection that the pool cannot give is the next element of `outages`.
pub mod Worlds
pub mod Runs
use Prim.Native.String.{String}
use hse_project_2026_chronos.Base.{
  ℕ, suc, ◌^◌, Bool, true, false, Option, none, some, List, [], ◌∷◌, ◌++◌, ltb, codes,
  if◌then◌else◌,
}
use hse_project_2026_chronos.Json.{Members}
use hse_project_2026_chronos.Server.Rows.{Text}
use hse_project_2026_chronos.Server.Tables.{Tables, NextIds}
use hse_project_2026_chronos.Server.Http.{Response, Libraries, build_error_response}

pub record World : Type 0 where
  pub tables : Tables
  pub next_ids : NextIds
  pub outages : List Bool
  pub now : ℕ

-- `missing_field`, `bad_type` and `bad_value` are std::invalid_argument with "missing:", "type:" or
-- "value:" and the field as its text; `sql_failure` is a pqxx::sql_error for no duplicate key.
pub data Failure : Type 0 where
  answered : Response → Failure
  missing_field bad_type bad_value : Text → Failure
  invalid_argument : Text → Failure
  length_error : Failure
  unique_violation sql_failure : Failure
  runtime_error : Text → Failure
  other_exception : Text → Failure

pub data Result {ℓ} (A : Type ℓ) : Type ℓ where
  ok : A → Result A
  failed : Failure → Result A

abbrev pub M : Type 0 → Type 0
M A = World → Result A × World

unfoldable pub pure : {A : Type 0} → A → M A
pure a w = (ok a, w)

unfoldable pub fail : {A : Type 0} → Failure → M A
fail f w = (failed f, w)

unfoldable pub lift : {A : Type 0} → Result A → M A
lift r w = (r, w)

abbrev pub continue_with : {A B : Type 0} → Result A → World → (A → M B) → Result B × World
continue_with (ok a) w k = k a w
continue_with (failed f) w k = (failed f, w)

infixl 5 ◌>>=◌ ◌>>◌
unfoldable pub ◌>>=◌ : {A B : Type 0} → M A → (A → M B) → M B
◌>>=◌ m k w = continue_with (m w).0 (m w).1 k

abbrev pub ◌>>◌ : {A B : Type 0} → M A → M B → M B
m >> k = m >>= λ _. k

unfoldable pub get_world : M World
get_world w = (ok w, w)

unfoldable pub get_tables : M Tables
get_tables w = (ok w.tables, w)

unfoldable pub put_tables : Tables → M (Unit {0})
put_tables t w = (ok tt, record w { tables = t })

unfoldable pub fail_if : Bool → Failure → M (Unit {0})
fail_if b f w = if b then (failed f, w) else (ok tt, w)

-- An early return with an error.
abbrev pub reject_if : Bool → ℕ → String → String → Members → M (Unit {0})
reject_if b status code message details =
    fail_if b (answered (build_error_response status code (codes message) details))

-- A value that has to be there.
unfoldable pub found_or : {A : Type 0} → Option A → Failure → M A
found_or none f w = (failed f, w)
found_or (some a) f w = (ok a, w)

-- A model object: its constructor throws or gives it.
abbrev pub constructed : {A : Type 0} → A → Option Text → Result A
constructed a none = ok a
constructed a (some message) = failed (invalid_argument message)

unfoldable pub construct : {A : Type 0} → (A → Option Text) → A → M A
construct error a w = (constructed a (error a), w)

unfoldable pub acquire : Libraries → M (Unit {0})
acquire lib w = elim w.outages [
  | [] ↦ (ok tt, w)
  | down ∷ rest ↦ (
    if down then failed (runtime_error lib.connection_error) else ok tt,
    record w { outages = rest },
  )
]

-- A transaction that is not committed is rolled back; the sequences are not.
abbrev pub roll_back : {A : Type 0} → Tables → Result A × World → Result A × World
roll_back before (ok a, w) = (ok a, w)
roll_back before (failed f, w) = (failed f, record w { tables = before })

unfoldable pub transaction : {A : Type 0} → Libraries → M A → M A
transaction lib m w = roll_back w.tables ((acquire lib >> m) w)

-- A SERIAL column is an INT: its sequence ends at 2^31 - 1.
abbrev pub id_limit : ℕ
id_limit = 2 ^ 31

unfoldable pub nextval : (NextIds → ℕ) → (NextIds → NextIds) → M ℕ
nextval sequence bump w =
    if ltb (sequence w.next_ids) id_limit
    then (ok (sequence w.next_ids), record w { next_ids = bump w.next_ids })
    else (failed sql_failure, w)

-- `e.what()`.
unfoldable pub what : Libraries → Failure → Text
what lib (answered r) = []
what lib (missing_field k) = codes "missing:" ++ k
what lib (bad_type k) = codes "type:" ++ k
what lib (bad_value k) = codes "value:" ++ k
what lib (invalid_argument t) = t
what lib length_error = codes "password_too_short"
what lib unique_violation = lib.unique_error
what lib sql_failure = lib.sql_error
what lib (runtime_error t) = t
what lib (other_exception t) = t

-- `catch (const std::exception& e) { throw std::runtime_error(prefix + e.what()); }`.
abbrev pub rewrap : {A : Type 0} → Libraries → String → Result A × World → Result A × World
rewrap lib prefix (ok a, w) = (ok a, w)
rewrap lib prefix (failed f, w) = (failed (runtime_error (codes prefix ++ what lib f)), w)

unfoldable pub rewrapping : {A : Type 0} → Libraries → String → M A → M A
rewrapping lib prefix m w = rewrap lib prefix (m w)
