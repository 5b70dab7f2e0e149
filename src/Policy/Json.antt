-- ===== src/Policy/Json.antt =====
-- What `JSON.parse` returns, as far as s3/policy.ts looks at it.
use gdrive_s.Base.{Option, none, some, List, [], ◌∷◌, Text, units_key, ◌==◌, if◌then◌else◌}

mutual
  -- `scalar` is a number or a Boolean: the code only tests that it is none of the other kinds.
  pub data Json : Type 0 where
    null : Json
    scalar : Json
    str : Text → Json
    arr : Elems → Json
    obj : Fields → Json

  pub data Elems : Type 0 where
    nil : Elems
    cons : Json → Elems → Elems

  pub data Fields : Type 0 where
    end : Fields
    field : Text → Json → Fields → Fields

abbrev pub elems : Elems → List Json
elems nil = []
elems (cons v vs) = v ∷ elems vs

-- `object[key]`; `none` is undefined.
unfoldable pub get : Text → Fields → Option Json
get key end = none
get key (field k v fs) = if k == key then some v else get key fs
