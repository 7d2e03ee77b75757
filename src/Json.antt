-- ===== src/Json.antt =====
-- JSON values as encoding/json decodes them into `interface{}` and `map[string]interface{}`, and
-- the reads of them by pkg/webhook/service (pickString). The text syntax of JSON is left out.
use webapp_wago.Base.{
  ◌≡◌, refl, Bool, List, [], ◌∷◌, Option, none, some, arith, if◌then◌else◌, Bool-cases, inl, inr,
}
use webapp_wago.Base.Text.{Text, text_eq, text_eq→eq, text_eq_refl, text_eq_iff}

-- A number is the float64 that the decoder makes of it, by the text that Go writes for that float64;
-- a number out of its range is no JSON to the decoder.
mutual
  pub data Json : Type 0 where
    null : Json
    boolean : Bool → Json
    number : Text → Json
    text : Text → Json
    array : Items → Json
    object : Fields → Json

  pub data Items : Type 0 where
    nil : Items
    cons : Json → Items → Items

  pub data Fields : Type 0 where
    end : Fields
    field : Text → Json → Fields → Fields

-- `v.(string)`, with "" where the value is none.
abbrev pub as_string : Option Json → Text
as_string (some (text s)) = s
as_string _ = []

-- `m[k]`
unfoldable pub get : Text → Fields → Option Json
get k end = none
get k (field j v m) = if text_eq j k then some v else get k m

-- `m[k] = v`
unfoldable pub put : Text → Json → Fields → Fields
put k v end = field k v end
put k v (field j w m) = if text_eq j k then field j v m else field j w (put k v m)

-- The first of the keys under which a string stands that is not empty, and that string.
unfoldable pub pick_string : Fields → List Text → Text
pick_string m [] = []
pick_string m (k ∷ keys) = elim (as_string (get k m)) [ [] ↦ pick_string m keys | c ∷ s ↦ c ∷ s ]

-- Decoding into a `map[string]interface{}`: an object, or null for the empty map.
abbrev pub as_map : Option Json → Option Fields
as_map (some (object m)) = some m
as_map (some null) = some end
as_map _ = none

pub get-put :
    (k j : Text) (v : Json) (m : Fields)
    → get j (put k v m) ≡ (if text_eq k j then some v else get j m)
unfolding get put
get-put k j v end = refl
get-put k j v (field i w m) = elim (Bool-cases (text_eq i k)) [
  | inl e ↦ rw (text_eq→eq i k e) (ground (arith, text_eq_refl k))
  | inr ne ↦ elim (Bool-cases (text_eq i j)) [
    | inl e ↦
        rw (← text_eq→eq i j e)
          (ground (arith, get-put k i v m, text_eq_refl i, text_eq_iff k i, text_eq_iff i k))
    | inr other ↦ ground (arith, get-put k j v m)
  ]
]
