-- ===== src/Jquery/Param/Examples.antt =====
-- A query string at a concrete input, with texts encoded by a shift of their code units.
use terminator.Json.Value.{JsonValue, string, array, object, end, item, Fields, empty, field}
use terminator.Jquery.Param.{Uri, properties, param}
use terminator.Jquery.Param.Leaves.{param_leaves, leaves, all_leaves}
use terminator.Jquery.Param.Joined.{read_query, read_query-param}
use terminator.Jquery.Param.{ends_in_brackets, item_prefix, is_object_type}
use terminator.Base.{ℕ, ◌+◌, ◌-◌, Text, codes, false, [], ◌∷◌, map, All, ◌≡◌, ◌≢◌, refl, ap₂, arith}

abbrev shifted : Text → Text
shifted t = map (λ c. c + 100) t

abbrev shift_back : Text → Text
shift_back t = map (λ c. c - 100) t

shift_back-shifted : (t : Text) → shift_back (shifted t) ≡ t
shift_back-shifted [] = refl
shift_back-shifted (c ∷ t) = ap₂ (λ d s. d ∷ s) (omega arith) (shift_back-shifted t)

shifted-plain : (t : Text) → All (λ c. (c ≢ 38) × (c ≢ 61) × (c ≢ 43)) (shifted t)
shifted-plain [] = tt
shifted-plain (c ∷ t) =
    (((λ e. omega (arith, e)), (λ e. omega (arith, e)), (λ e. omega (arith, e))), shifted-plain t)

abbrev text_of : JsonValue ℕ → Text
text_of (string t) = t
text_of _ = []

abbrev uri : Uri ℕ
uri = record {
  encode = shifted;
  decode = shift_back;
  string_of = text_of;
  index_text = λ i. (48 + i) ∷ [];
  decode-encode = shift_back-shifted;
  encode-plain = shifted-plain;
}

-- `{ a: ["x", { b: "y" }] }`
abbrev query_data : Fields ℕ
query_data =
    field (codes "a")
      (array (
        item (string (codes "x"))
          (item (object (field (codes "b") (string (codes "y")) empty)) end)))
      empty

read_query-param_example :
    read_query uri (param uri (properties query_data) false)
    ≡ param_leaves uri (properties query_data) false
read_query-param_example = read_query-param uri (properties query_data) false

-- The names are `a[]` and `a[1][b]`.
data_leaves :
    param_leaves uri (properties query_data) false
    ≡ (codes "a[]", codes "x") ∷ (codes "a[1][b]", codes "y") ∷ []
unfolding param_leaves all_leaves leaves ends_in_brackets item_prefix is_object_type
data_leaves = refl
