-- ===== src/Local/Db.antt =====
-- The local database: its tables, and a repository method as a function on it that returns or
-- throws. `query.exec()` fails here where frontend/sql/local_init.sql refuses the statement; then
-- the statement changes nothing. Failures of the disk are not modelled.
use hse_project_2026_chronos.Base.{◌≡◌, refl, Bool, true, false, Option, none, some, List}
use hse_project_2026_chronos.Local.Rows.{
  LocalBoard, LocalStatus, LocalTask, LocalUser, LocalPomodoroSession,
}

-- `foreign_keys` is the setting of the connection: local_init.sql turns it on, and
-- `LocalDatabaseManager::createSchema` runs that script only when it creates the database.
pub record Db : Type 0 where
  pub users : List LocalUser
  pub boards : List LocalBoard
  pub statuses : List LocalStatus
  pub tasks : List LocalTask
  pub sessions : List LocalPomodoroSession
  pub foreign_keys : Bool

-- The end of a method: a value, or a `std::runtime_error`.
pub data Result {ℓ} (A : Type ℓ) : Type ℓ where
  ok : A → Result A
  thrown : Result A

abbrev pub M : Type 0 → Type 0
M A = Db → Result A × Db

abbrev pub pure : {A : Type 0} → A → M A
pure a db = (ok a, db)

abbrev pub throw : {A : Type 0} → M A
throw db = (thrown, db)

abbrev pub continue_with : {A B : Type 0} → Result A → Db → (A → M B) → Result B × Db
continue_with (ok a) db f = f a db
continue_with thrown db f = (thrown, db)

infixl 5 ◌>>=◌ ◌>>◌
abbrev pub ◌>>=◌ : {A B : Type 0} → M A → (A → M B) → M B
◌>>=◌ m f db = continue_with (m db).0 (m db).1 f

abbrev pub ◌>>◌ : {A B : Type 0} → M A → M B → M B
m >> k = m >>= λ _. k

abbrev pub get_db : M Db
get_db db = (ok db, db)

-- `try { m } catch (const std::exception&) { handler }`.
abbrev pub catch_with : {A : Type 0} → Result A → Db → M A → Result A × Db
catch_with (ok a) db handler = (ok a, db)
catch_with thrown db handler = handler db

abbrev pub try_catch : {A : Type 0} → M A → M A → M A
try_catch m handler db = catch_with (m db).0 (m db).1 handler

abbrev pub exec_or_throw : (Db → Option Db) → M (Unit {0})
exec_or_throw statement db = elim (statement db) [ none ↦ (thrown, db) | some db' ↦ (ok tt, db') ]

-- The next statement of a transaction.
abbrev pub and_then : Option Db → (Db → Option Db) → Option Db
and_then none k = none
and_then (some db) k = k db

pub exec_or_throw-none :
    (statement : Db → Option Db) (db : Db)
    → statement db ≡ none
    → exec_or_throw statement db ≡ (thrown, db)
exec_or_throw-none statement db h = rw (h, exec_or_throw)

pub exec_or_throw-some :
    (statement : Db → Option Db) (db db' : Db)
    → statement db ≡ some db'
    → exec_or_throw statement db ≡ (ok tt, db')
exec_or_throw-some statement db db' h = rw (h, exec_or_throw)

-- A statement that succeeds, with what the method returns after it.
pub exec_or_throw-pure :
    {A : Type 0} (statement : Db → Option Db) (a : A) (db db' : Db)
    → statement db ≡ some db'
    → (exec_or_throw statement >> pure a) db ≡ (ok a, db')
exec_or_throw-pure statement a db db' h i =
    continue_with (exec_or_throw-some statement db db' h i).0
      (exec_or_throw-some statement db db' h i).1 (λ _. pure a)

abbrev pub is_ok : {A : Type 0} → Result A → Bool
is_ok (ok a) = true
is_ok thrown = false

-- A value that is dropped afterwards changes neither the tables nor whether the method throws.
pub drop_value-db :
    {A : Type 0} (end : Result A × Db) → (continue_with end.0 end.1 (λ _. pure (tt {0}))).1 ≡ end.1
drop_value-db (ok a, db) = refl
drop_value-db (thrown, db) = refl

pub drop_value-is_ok :
    {A : Type 0} (end : Result A × Db)
    → is_ok (continue_with end.0 end.1 (λ _. pure (tt {0}))).0 ≡ is_ok end.0
drop_value-is_ok (ok a, db) = refl
drop_value-is_ok (thrown, db) = refl

-- A method that returned goes on with the next.
pub continue-ok :
    {A B : Type 0} (end : Result A × Db) (k : M B)
    → is_ok end.0 ≡ true
    → continue_with end.0 end.1 (λ _. k) ≡ k end.1
continue-ok (ok a, db) k h = refl
continue-ok (thrown, db) k h = cc

-- What a method returns at its end does not change the tables.
pub pure_value-db :
    {A B : Type 0} (b : B) (end : Result A × Db)
    → (continue_with end.0 end.1 (λ _. pure b)).1 ≡ end.1
pure_value-db b (ok a, db) = refl
pure_value-db b (thrown, db) = refl
