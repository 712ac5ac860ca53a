-- ===== src/Json.antt =====
-- What `encoding/json` decodes into an `interface{}`: the values that the handlers take apart.
pub mod Positions
use bsc_builder_proxyd.Base.{
  ℕ, zero, suc, Bool, Option, none, some, String, ℤ, eqb, string_eq, if◌then◌else◌,
}

mutual
  pub data Json : Type 0 where
    null : Json
    boolean : Bool → Json
    number : ℤ → Json
    text : String → Json
    array : Items → Json
    object : Fields → Json

  pub data Items : Type 0 where
    nil : Items
    cons : Json → Items → Items

  pub data Fields : Type 0 where
    end : Fields
    field : String → Json → Fields → Fields

-- `m[key]` with its `ok`.
unfoldable pub field_of : String → Fields → Option Json
field_of k end = none
field_of k (field j v fs) = if eqb j k then some v else field_of k fs

-- `m[key] = v`.
unfoldable pub set_field : String → Json → Fields → Fields
set_field k v end = field k v end
set_field k v (field j w fs) = if eqb j k then field j v fs else field j w (set_field k v fs)

unfoldable pub item_at : ℕ → Items → Option Json
item_at n nil = none
item_at zero (cons v vs) = some v
item_at (suc n) (cons v vs) = item_at n vs

unfoldable pub set_item : ℕ → Json → Items → Items
set_item n v nil = nil
set_item zero v (cons w vs) = cons v vs
set_item (suc n) v (cons w vs) = cons w (set_item n v vs)

unfoldable pub append_item : Items → Json → Items
append_item nil v = cons v nil
append_item (cons w vs) v = cons w (append_item vs v)

unfoldable pub count_items : Items → ℕ
count_items nil = 0
count_items (cons v vs) = suc (count_items vs)

-- `v.(string)`.
abbrev pub as_text : Json → Option String
as_text (text s) = some s
as_text null = none
as_text (boolean b) = none
as_text (number n) = none
as_text (array vs) = none
as_text (object fs) = none
