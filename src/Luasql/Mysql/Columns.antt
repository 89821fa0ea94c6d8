-- ===== src/Luasql/Mysql/Columns.antt =====
-- Lua/include/luasql/ls_mysql.h: values, and the names and types of columns.
use addons_terraria_tshock.Common.{
  ℕ, zero, suc, ◌+◌, ◌≤◌, Option, none, some, List, [], ◌∷◌, ◌++◌, length, take, arith,
  length-append, length-take,
}
use addons_terraria_tshock.Luasql.{Scalar, nil, string}
use addons_terraria_tshock.Luasql.Mysql.Api

-- `pushvalue`.
unfoldable pushvalue : {N : Type 0} → Option (List ℕ) → Scalar N
pushvalue none = nil
pushvalue (some text) = string text

-- The fields of a row from i on.
unfoldable pub row_values : {N : Type 0} → (ℕ → Option (List ℕ)) → ℕ → ℕ → List (Scalar N)
unfolding pushvalue
row_values row zero i = []
row_values row (suc n) i = pushvalue (row i) ∷ row_values row n (i + 1)

unfoldable pub getcolumntype : Api.FieldType → List ℕ
getcolumntype Api.type_var_string = b's' ∷ b't' ∷ b'r' ∷ b'i' ∷ b'n' ∷ b'g' ∷ []
getcolumntype Api.type_string = b's' ∷ b't' ∷ b'r' ∷ b'i' ∷ b'n' ∷ b'g' ∷ []
getcolumntype Api.type_tiny_blob = b'b' ∷ b'i' ∷ b'n' ∷ b'a' ∷ b'r' ∷ b'y' ∷ []
getcolumntype Api.type_medium_blob = b'b' ∷ b'i' ∷ b'n' ∷ b'a' ∷ b'r' ∷ b'y' ∷ []
getcolumntype Api.type_long_blob = b'b' ∷ b'i' ∷ b'n' ∷ b'a' ∷ b'r' ∷ b'y' ∷ []
getcolumntype Api.type_blob = b'b' ∷ b'i' ∷ b'n' ∷ b'a' ∷ b'r' ∷ b'y' ∷ []
getcolumntype Api.type_date = b'd' ∷ b'a' ∷ b't' ∷ b'e' ∷ []
getcolumntype Api.type_newdate = b'd' ∷ b'a' ∷ b't' ∷ b'e' ∷ []
getcolumntype Api.type_datetime = b'd' ∷ b'a' ∷ b't' ∷ b'e' ∷ b't' ∷ b'i' ∷ b'm' ∷ b'e' ∷ []
getcolumntype Api.type_time = b't' ∷ b'i' ∷ b'm' ∷ b'e' ∷ []
getcolumntype Api.type_timestamp = b't' ∷ b'i' ∷ b'm' ∷ b'e' ∷ b's' ∷ b't' ∷ b'a' ∷ b'm' ∷ b'p' ∷ []
getcolumntype Api.type_enum = b's' ∷ b'e' ∷ b't' ∷ []
getcolumntype Api.type_set = b's' ∷ b'e' ∷ b't' ∷ []
getcolumntype Api.type_null = b'n' ∷ b'u' ∷ b'l' ∷ b'l' ∷ []
getcolumntype Api.type_other = b'u' ∷ b'n' ∷ b'd' ∷ b'e' ∷ b'f' ∷ b'i' ∷ b'n' ∷ b'e' ∷ b'd' ∷ []
getcolumntype _ = b'n' ∷ b'u' ∷ b'm' ∷ b'b' ∷ b'e' ∷ b'r' ∷ []

module _ (api : Api.Api) where
  open api use {Number}

  -- `sprintf(type_name, "%.20s(%ld)", ...)`.
  unfoldable pub type_name : Api.MysqlField → List ℕ
  unfolding getcolumntype
  type_name field =
      take 20 (getcolumntype field.type) ++ (b'(' ∷ api.format_long field.length) ++ (b')' ∷ [])

  -- The two tables of `create_colinfo`, from column i on.
  unfoldable pub names_from : (ℕ → Api.MysqlField) → ℕ → ℕ → List (Scalar Number)
  names_from field zero i = []
  names_from field (suc n) i = string (field i).name ∷ names_from field n (i + 1)

  unfoldable pub types_from : (ℕ → Api.MysqlField) → ℕ → ℕ → List (Scalar Number)
  unfolding type_name
  types_from field zero i = []
  types_from field (suc n) i = string (type_name (field i)) ∷ types_from field n (i + 1)

  -- The buffer of the name of a type, of 50 bytes, is large enough, since no number has more than 20
  -- digits.
  type_name-Fits :
      (field : Api.MysqlField)
      → length (api.format_long field.length) ≤ 20
      → length (type_name field) + 1 ≤ 50
  unfolding type_name
  type_name-Fits field h = fits (getcolumntype field.type) (api.format_long field.length) h
    where
      fits :
          (name digits : List ℕ)
          → length digits ≤ 20
          → length (take 20 name ++ (b'(' ∷ digits) ++ (b')' ∷ [])) + 1 ≤ 50
      fits name digits g = omega (
        arith,
        length-take 20 name,
        length-append (take 20 name ++ (b'(' ∷ digits)) (b')' ∷ []),
        length-append (take 20 name) (b'(' ∷ digits),
      )
