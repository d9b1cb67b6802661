-- ===== src/Parse/Json.antt =====
-- JSON values, as `json.loads` gives them. A number is kept as the text that `str` shows.
use self_learning_trading_ag.Base.{Bool, Option, none, some, Text, text_eq, if◌then◌else◌}

mutual
  pub data Json : Type 0 where
    null : Json
    boolean : Bool → Json
    number : Text → Json
    string : Text → Json
    array : Array → Json
    object : Object → Json

  -- The elements of an array.
  pub data Array : Type 0 where
    no_element : Array
    element : Json → Array → Array

  -- The fields of an object, in their order.
  pub data Object : Type 0 where
    no_field : Object
    field : Text → Json → Object → Object

-- `data.get(name)` of a dictionary.
unfoldable pub get_field : Text → Object → Option Json
get_field name no_field = none
get_field name (field n v rest) = if text_eq n name then some v else get_field name rest
