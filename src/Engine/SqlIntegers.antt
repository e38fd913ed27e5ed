-- ===== src/Engine/SqlIntegers.antt =====
-- The 64-bit integers of SQLite that the queries of engine/pass1.py meet: a parameter outside them
-- is refused by the sqlite3 module, and CAST(text AS INTEGER) stops at the nearest of them.
use dbf_anonymizer.Prelude.{
  ◌-◌, ◌^◌, Bool, ◌&&◌, List, [], ◌∷◌, if◌then◌else◌, ℤ, pos, negsuc, ltb_ℤ, leb_ℤ,
}

abbrev pub min_integer : ℤ
min_integer = negsuc (2 ^ 63 - 1)

abbrev pub max_integer : ℤ
max_integer = pos (2 ^ 63 - 1)

-- a Python int that can be bound to a parameter
abbrev pub fits_integer : ℤ → Bool
fits_integer value = leb_ℤ min_integer value && leb_ℤ value max_integer

-- CAST(… AS INTEGER) of the text of an integer
abbrev pub cast_integer : ℤ → ℤ
cast_integer value =
    if ltb_ℤ value min_integer
    then min_integer
    else (if ltb_ℤ max_integer value then max_integer else value)

abbrev pub insert_by_cast : ℤ → List ℤ → List ℤ
insert_by_cast value [] = value ∷ []
insert_by_cast value (other ∷ values) =
    if ltb_ℤ (cast_integer other) (cast_integer value)
    then other ∷ insert_by_cast value values
    else value ∷ other ∷ values

-- ORDER BY CAST(… AS INTEGER), where equal ones keep the order of the rows
unfoldable pub order_by_cast : List ℤ → List ℤ
order_by_cast [] = []
order_by_cast (value ∷ values) = insert_by_cast value (order_by_cast values)
