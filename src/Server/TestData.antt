-- ===== src/Server/TestData.antt =====
-- A small database with two users and libraries for the runs.
use hse_project_2026_chronos.Base.{
  refl, true, false, Option, none, some, List, [], ◌∷◌, ◌++◌, codes, length,
}
use hse_project_2026_chronos.Base.Int.{ℤ}
use hse_project_2026_chronos.Json.{Json, integer, object, end}
use hse_project_2026_chronos.Auth.WithAuth.{bearer}
use hse_project_2026_chronos.Auth.Jwt.TestData.{made_token}
use hse_project_2026_chronos.Local.Table.{any_row, all_rows}
use hse_project_2026_chronos.Server.Rows.{User, Board, Status, Task, board_error}
use hse_project_2026_chronos.Server.Tables.{Tables, board_exists}
use hse_project_2026_chronos.Server.Http.{
  Libraries, Request, delete_method, get_method, post, not_a_number, number, str, field,
}
use hse_project_2026_chronos.Server.Action.{World}
use hse_project_2026_chronos.Server.Router.{Call, Arrival, board_delete}
use hse_project_2026_chronos.Server.Steps.{status_on_board}
use hse_project_2026_chronos.Server.Selections.{ascending}
use hse_project_2026_chronos.Server.Invariant.{WellFormed}

abbrev pub read_int : Json → Option ℤ
read_int (integer n) = some n
read_int _ = none

abbrev pub libraries : Libraries
libraries = record {
  get_int = read_int;
  stoll = λ _. not_a_number;
  char_length = length;
  iso8601 = λ _. [];
  get_time = λ _. none;
  stored_deadline = λ t. t;
  hash_password = λ t. t;
  verify_password = λ _ _. false;
  create_token = λ _. none;
  connection_error = [];
  unique_error = [];
  sql_error = [];
  type_error = [];
  range_error = [];
}

abbrev user_3 : User
user_3 = record {
  id = 3;
  email = codes "a@b.de";
  name = codes "A";
  status = codes "x";
  password_hash = codes "h";
  avatar_s3_key = [];
  created_at = 1;
}

abbrev pub board_1 : Board
board_1 = record {
  id = 1;
  user_id = 3;
  title = codes "Plan";
  description = [];
  created_at = 1;
  updated_at = 1;
}

abbrev pub board_2 : Board
board_2 = record board_1 { id = 2; user_id = 4 }

abbrev pub status_1 : Status
status_1 = record { id = 1; board_id = 1; name = codes "Done"; position = 2 }

abbrev pub status_2 : Status
status_2 = record status_1 { id = 2; board_id = 2 }

abbrev pub task_1 : Task
task_1 = record {
  id = 1;
  board_id = 1;
  title = codes "T";
  description = [];
  deadline = none;
  status_id = 1;
  priority_color = codes "red";
  is_completed = false;
  created_at = 2;
  updated_at = 2;
}

abbrev pub tables : Tables
tables = record {
  users = user_3 ∷ record user_3 { id = 4; email = codes "c@d.de" } ∷ [];
  boards = board_1 ∷ board_2 ∷ [];
  statuses = status_1 ∷ status_2 ∷ [];
  tasks = task_1 ∷ record task_1 { id = 2; board_id = 2; status_id = 2 } ∷ [];
  sessions = [];
}

abbrev pub world : World
world = record {
  tables = tables;
  next_ids = record { user = 5; board = 3; status = 3; task = 3; session = 1 };
  outages = [];
  now = 9;
}

pub world-WellFormed : WellFormed world.tables world.next_ids
unfolding ascending all_rows any_row board_exists status_on_board board_error
world-WellFormed = record {
  boards_ascend = refl;
  statuses_ascend = refl;
  tasks_ascend = refl;
  statuses_on_boards = refl;
  tasks_in_statuses = refl;
  boards_valid = refl;
}

-- The user 3 deletes a board; the same request without a token.
abbrev pub delete_board_1 : Call
delete_board_1 = record {
  endpoint = board_delete;
  authorization = bearer ++ made_token.0;
  request = record {
    method = delete_method;
    params = some [];
    body = some (object (field "board_id" (number 1) end));
  };
}

abbrev pub without_token : Call
without_token = record delete_board_1 { authorization = [] }

abbrev pub arrivals : List Arrival
arrivals =
    record { time = 15; outages = false ∷ true ∷ []; call = delete_board_1 }
    ∷ record { time = 16; outages = []; call = without_token }
    ∷ []

-- The user 3 asks for their boards and for a new one.
abbrev pub list_boards : Request
list_boards = record { method = get_method; params = some []; body = none }

abbrev pub new_board_request : Request
new_board_request = record {
  method = post;
  params = some [];
  body = some (object (field "title" (str "Week") end));
}
