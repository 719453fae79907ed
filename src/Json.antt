-- ===== src/Json.antt =====
-- JSON values as nlohmann::json and QJsonValue hold them. Texts and keys are lists of character
-- codes; parsing and printing belong to those libraries and are parameters where they are used.
use hse_project_2026_chronos.Base.{ℕ, Bool, Option, none, some, List, text_eq, if◌then◌else◌}
use hse_project_2026_chronos.Base.Int.{ℤ}

mutual
  pub data Json : Type 0 where
    null : Json
    bool : Bool → Json
    integer : ℤ → Json
    float : List ℕ → Json
    string : List ℕ → Json
    array : Items → Json
    object : Members → Json

  pub data Items : Type 0 where
    nil : Items
    cons : Json → Items → Items

  pub data Members : Type 0 where
    end : Members
    member : List ℕ → Json → Members → Members

-- The value of the first member of this name.
unfoldable pub get : List ℕ → Members → Option Json
get key end = none
get key (member k v rest) = if text_eq k key then some v else get key rest

-- A lookup in a value that may be no object.
unfoldable pub at : List ℕ → Json → Option Json
unfolding get
at key (object ms) = get key ms
at key null = none
at key (bool b) = none
at key (integer n) = none
at key (float t) = none
at key (string t) = none
at key (array xs) = none
