-- ===== src/Jquery/Param.antt =====
-- `jQuery.param` and `buildParams` of jquery-1.7.2.js, for data without functions and texts without
-- lone surrogates, on which encodeURIComponent throws.
pub mod Leaves
pub mod Joined
mod Examples
use terminator.Json.Value.{
  JsonValue, undefined, null, boolean, number, string, array, object, Items, end, item, Fields,
  empty, field,
}
use terminator.Base.{
  ℕ, suc, Text, codes, Bool, true, false, ◌||◌, ◌&&◌, List, [], ◌∷◌, ◌++◌, All, ◌==◌, if◌then◌else◌,
  ◌≡◌, ◌≢◌,
}

-- What the functions call of the language: encodeURIComponent with the function that reads it back,
-- and the conversions of a value and of an index to a text.
pub record Uri (N : Type 0) : Type 0 where
  pub encode : Text → Text
  pub decode : Text → Text
  pub string_of : JsonValue N → Text
  pub index_text : ℕ → Text
  pub decode-encode : (t : Text) → decode (encode t) ≡ t
  pub encode-plain : (t : Text) → All (λ c. (c ≢ 38) × (c ≢ 61) × (c ≢ 43)) (encode t)

-- A form element, of which `param` reads two properties.
pub record FormElement (N : Type 0) : Type 0 where
  pub name : JsonValue N
  pub value : JsonValue N

pub data Params (N : Type 0) : Type 0 where
  elements : List (FormElement N) → Params N
  properties : Fields N → Params N

-- `rbracket.test`
unfoldable pub ends_in_brackets : Text → Bool
ends_in_brackets [] = false
ends_in_brackets (a ∷ []) = false
ends_in_brackets (a ∷ b ∷ []) = a == 91 && b == 93
ends_in_brackets (a ∷ b ∷ c ∷ t) = ends_in_brackets (b ∷ c ∷ t)

-- `.replace( r20, "+" )`
unfoldable pub replace_spaces : Text → Text
replace_spaces [] = []
replace_spaces (a ∷ []) = a ∷ []
replace_spaces (a ∷ b ∷ []) = a ∷ b ∷ []
replace_spaces (a ∷ b ∷ c ∷ t) =
    let after = replace_spaces t in
    let further = replace_spaces (b ∷ c ∷ t) in
    if a == 37 && b == 50 && c == 48 then 43 ∷ after else a ∷ further

-- `.join( "&" )`
unfoldable pub join_and : List Text → Text
join_and [] = []
join_and (x ∷ []) = x
join_and (x ∷ y ∷ xs) = x ++ (38 ∷ join_and (y ∷ xs))

module _ {N : Type 0} (u : Uri N) where
  -- `add`, which writes behind the end of `s`.
  unfoldable pub add_pair : Text → JsonValue N → List Text → List Text
  add_pair key value s = s ++ ((u.encode key ++ (61 ∷ u.encode (u.string_of value))) ∷ [])

  -- `typeof v === "object"`
  unfoldable pub is_object_type : JsonValue N → Bool
  is_object_type null = true
  is_object_type (array _) = true
  is_object_type (object _) = true
  is_object_type _ = false

  -- The prefix of an item of an array.
  unfoldable pub item_prefix : Text → ℕ → JsonValue N → Text
  unfolding is_object_type
  item_prefix prefix i v =
      prefix ++ (91 ∷ ((if is_object_type v then u.index_text i else []) ++ (93 ∷ [])))

  unfoldable mutual
    -- `buildParams`, with the loops over an array and over an object.
    unfolding add_pair ends_in_brackets item_prefix

    pub build_params : Bool → Text → JsonValue N → List Text → List Text
    build_params traditional prefix (array vs) s = build_items traditional prefix 0 vs s
    build_params true prefix (object fs) s = add_pair prefix (object fs) s
    build_params false prefix (object fs) s = build_fields prefix fs s
    build_params traditional prefix v s = add_pair prefix v s

    pub build_items : Bool → Text → ℕ → Items N → List Text → List Text
    build_items traditional prefix i end s = s
    build_items traditional prefix i (item v vs) s =
        let s' =
          (if traditional || ends_in_brackets prefix
            then add_pair prefix v s
            else build_params traditional (item_prefix prefix i v) v s) in
        build_items traditional prefix (suc i) vs s'

    pub build_fields : Text → Fields N → List Text → List Text
    build_fields prefix empty s = s
    build_fields prefix (field name v fs) s =
        build_fields prefix fs (build_params false (prefix ++ (91 ∷ (name ++ (93 ∷ [])))) v s)

  -- The loop of `param` over the properties.
  unfoldable pub build_all : Bool → Fields N → List Text → List Text
  unfolding build_params
  build_all traditional empty s = s
  build_all traditional (field prefix v fs) s =
      build_all traditional fs (build_params traditional prefix v s)

  unfoldable pub add_elements : List (FormElement N) → List Text → List Text
  unfolding add_pair
  add_elements [] s = s
  add_elements (e ∷ es) s = add_elements es (add_pair (u.string_of e.name) e.value s)

  -- `jQuery.param`, with `traditional` as the caller or the settings have it.
  unfoldable pub param : Params N → Bool → Text
  unfolding add_elements build_all join_and replace_spaces
  param (elements es) traditional = replace_spaces (join_and (add_elements es []))
  param (properties fs) traditional = replace_spaces (join_and (build_all traditional fs []))
