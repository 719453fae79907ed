-- ===== src/Forms/Fields.antt =====
-- The fields that frontend/include/validation_utils.h accepts and the rows that
-- frontend/sql/local_init.sql takes.
use hse_project_2026_chronos.Base.{
  ◌≡◌, ◌≤◌, ◌↔◌, refl, Bool, true, false, ◌&&◌, none, [], ◌∷◌, leb, ltb, is_empty, length, arith,
}
use hse_project_2026_chronos.Base.Int.{pos, leb_ℤ}
use hse_project_2026_chronos.Local.Rows.{Env, Text, LocalBoard, LocalStatus, LocalTask}
use hse_project_2026_chronos.Local.Schema.{board_checks, status_checks, task_checks}
use hse_project_2026_chronos.Forms.{
  utf16_length, validate_board_fields, validate_status_name, validate_task_fields,
}

is_empty-length : (t : Text) → is_empty t ≡ leb (length t) 0
is_empty-length t = ground arith

-- All characters are of the basic plane.
unfoldable pub all_basic : Text → Bool
all_basic [] = true
all_basic (c ∷ cs) = ltb c 65536 && all_basic cs

length-below_utf16_length : (t : Text) → length t ≤ utf16_length t
unfolding utf16_length
length-below_utf16_length [] = omega arith
length-below_utf16_length (c ∷ cs) = ground (arith, length-below_utf16_length cs)

utf16_length-basic : (t : Text) → all_basic t ≡ true → utf16_length t ≡ length t
unfolding utf16_length all_basic
utf16_length-basic [] h = refl
utf16_length-basic (c ∷ cs) h = ground (arith, h, utf16_length-basic cs)

pub board_fields :
    (env : Env) (title description : Text)
    → validate_board_fields env title description ≡ none
    → (is_empty (env.trimmed title) ≡ false)
      × (leb 1 (length (env.trimmed title)) ≡ true)
      × (leb (length (env.trimmed title)) 100 ≡ true)
      × (leb (length (env.trimmed description)) 1000 ≡ true)
unfolding validate_board_fields
board_fields env title description h = ground (
  arith,
  h,
  is_empty-length (env.trimmed title),
  length-below_utf16_length (env.trimmed title),
  length-below_utf16_length (env.trimmed description),
)

-- Where the trimmed fields have characters of the basic plane only, the ones that a form accepts are
-- exactly those with which the table takes the row, once they are trimmed: for a board, for a status whose position is not negative, and for a task whose
-- priority color has an allowed length.
pub validate-checks :
    (env : Env) (title description : Text) (b : LocalBoard) (s : LocalStatus) (t : LocalTask)
    → all_basic (env.trimmed title) ≡ true
    → all_basic (env.trimmed description) ≡ true
    → leb_ℤ (pos 0) s.position ≡ true
    → (leb 1 (length t.priority_color) && leb (length t.priority_color) 50) ≡ true
    → ((validate_board_fields env title description ≡ none) ↔ (
        board_checks (record b { title = env.trimmed title; description = env.trimmed description })
        ≡ true))
      × ((validate_status_name env title ≡ none)
          ↔ (status_checks (record s { name = env.trimmed title }) ≡ true))
      × ((validate_task_fields env title description ≡ none) ↔ (
          task_checks
            (record t { title = env.trimmed title; description = env.trimmed description })
          ≡ true))
unfolding validate_board_fields validate_status_name validate_task_fields board_checks status_checks
    task_checks
validate-checks env title description b s t title_basic description_basic position color =
    let filled = is_empty-length (env.trimmed title) in
    let title_size = utf16_length-basic (env.trimmed title) title_basic in
    let description_size = utf16_length-basic (env.trimmed description) description_basic in
    (
      ground (arith, filled, title_size, description_size),
      ground (arith, filled, title_size, position),
      ground (arith, filled, title_size, description_size, color),
    )
