-- ===== src/Local/Users.antt =====
-- frontend/local_repositories/local_user_repository.cpp.
use hse_project_2026_chronos.Base.{
  Bool, ◌||◌, Option, none, some, List, [], ◌∷◌, if◌then◌else◌, is_empty,
}
use hse_project_2026_chronos.Base.Int.{ℤ, ltb_ℤ}
use hse_project_2026_chronos.Local.Rows.{Env, synced, is_pending, LocalUser, processing_timestamp}
use hse_project_2026_chronos.Local.Table.{find_row, select_where}
use hse_project_2026_chronos.Local.Accounts.{has_user_id, insert_into_users, update_users}
use hse_project_2026_chronos.Local.Db.{Db, M, ok, pure, throw, ◌>>=◌, ◌>>◌, exec_or_throw}

-- The columns that `insert` and `update` bind.
unfoldable pub insert_user_row : Env → LocalUser → LocalUser
insert_user_row env user =
    let created_at = processing_timestamp env user.created_at in
    let updated_at = if is_empty user.updated_at then created_at else user.updated_at in
    record user {
      email = env.trimmed user.email;
      name = env.trimmed user.name;
      status = env.trimmed user.status;
      created_at = created_at;
      updated_at = processing_timestamp env updated_at;
    }

unfoldable pub update_user_row : Env → LocalUser → LocalUser
update_user_row env user = record user {
  email = env.trimmed user.email;
  name = env.trimmed user.name;
  status = env.trimmed user.status;
  created_at = processing_timestamp env user.created_at;
  updated_at = processing_timestamp env user.updated_at;
}

-- The guard of `insert` and `update`, and of the push to the server.
unfoldable pub has_empty_field : Env → LocalUser → Bool
has_empty_field env user =
    is_empty (env.trimmed user.email)
    || is_empty (env.trimmed user.name)
    || is_empty (env.trimmed user.status)

unfoldable pub find_by_id : ℤ → M (Option LocalUser)
find_by_id user_id db = (ok (find_row (has_user_id user_id) db.users), db)

module _ (env : Env) where
  unfoldable pub insert : LocalUser → M LocalUser
  insert user =
      if has_empty_field env user
      then throw
      else (exec_or_throw (insert_into_users (insert_user_row env user))
          >> pure (insert_user_row env user))

  unfoldable pub update : LocalUser → M LocalUser
  update user =
      if has_empty_field env user
      then throw
      else (exec_or_throw (update_users env (has_user_id user.id) (λ _. update_user_row env user))
          >> pure user)

  unfoldable pub save : LocalUser → M LocalUser
  unfolding find_by_id insert update
  save user =
      find_by_id user.id >>= λ found. elim found [ none ↦ insert user | some _ ↦ update user ]

  unfoldable pub mark_synced : ℤ → M (Unit {0})
  mark_synced user_id =
      exec_or_throw
        (update_users env (has_user_id user_id) (λ u. record u { sync_status = synced }))

-- ORDER BY id LIMIT 1.
least : LocalUser → Option LocalUser → LocalUser
least u none = u
least u (some v) = if ltb_ℤ v.id u.id then v else u

first_user : List LocalUser → Option LocalUser
unfolding least
first_user [] = none
first_user (u ∷ us) = some (least u (first_user us))

unfoldable pub get_current_user : Db → Option LocalUser
unfolding first_user
get_current_user db = first_user (select_where (λ u. is_empty u.deleted_at) db.users)

unfoldable pub find_unsynced : Db → List LocalUser
find_unsynced db = select_where (λ u. is_pending u.sync_status) db.users
