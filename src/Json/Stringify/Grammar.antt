-- ===== src/Json/Stringify/Grammar.antt =====
-- The reference for `JSON.stringify`: JSON data, the texts that RFC 8259 allows for it, and the data
-- that a value of the program stands for.
use terminator.Base.{
  ℕ, Bool, true, false, List, [], ◌∷◌, ◌++◌, Option, none, some, Text, codes, All, ◌≡◌, ◌⊎◌,
  if◌then◌else◌,
}
use terminator.Json.Quote.Reader.{read_string}
use terminator.Json.Value.{JsonValue, Items, Fields}
use terminator.Json.Stringify.{select}

mutual
  pub data Json (N : Type 0) : Type 0 where
    null : Json N
    boolean : Bool → Json N
    number : N → Json N
    string : Text → Json N
    array : Elements N → Json N
    object : Members N → Json N

  pub data Elements (N : Type 0) : Type 0 where
    end : Elements N
    element : Json N → Elements N → Elements N

  pub data Members (N : Type 0) : Type 0 where
    empty : Members N
    member : Text → Json N → Members N → Members N

-- Insignificant white space.
abbrev pub IsBlank : ℕ → Type 0
IsBlank c = (c ≡ b' ') ⊎ (c ≡ b'\t') ⊎ (c ≡ b'\n') ⊎ (c ≡ b'\r')

abbrev pub Blank : Text → Type 0
Blank w = All IsBlank w

-- The texts, in order, with commas between them and white space around them.
pub data Joined : List Text → Text → Type 0 where
  nothing : Joined [] []
  last : (w t w' : Text) → Blank w → Blank w' → Joined (t ∷ []) (w ++ (t ++ w'))
  more :
      (w t : Text) {u rest : Text} {ts : List Text}
      → Blank w
      → Joined (u ∷ ts) rest
      → Joined (t ∷ u ∷ ts) (w ++ (t ++ (b',' ∷ rest)))

-- A literal of the string, wherever it stands.
abbrev pub Literal : Text → Text → Type 0
Literal s t = (rest : Text) → read_string (t ++ rest) ≡ some (s, rest)

module _ {N : Type 0} (number_text : N → Text) where
  mutual
    pub data Writes : Json N → Text → Type 0 where
      as_null : Writes null (codes "null")
      as_true : Writes (boolean true) (codes "true")
      as_false : Writes (boolean false) (codes "false")
      as_number : (n : N) → Writes (number n) (number_text n)
      as_string : (s t : Text) → Literal s t → Writes (string s) t
      as_array :
          (es : Elements N) (ts : List Text) (t : Text)
          → WritesElements es ts
          → Joined ts t
          → Writes (array es) (b'[' ∷ (t ++ (b']' ∷ [])))
      as_object :
          (ms : Members N) (ts : List Text) (t : Text)
          → WritesMembers ms ts
          → Joined ts t
          → Writes (object ms) (b'{' ∷ (t ++ (b'}' ∷ [])))

    pub data WritesElements : Elements N → List Text → Type 0 where
      as_end : WritesElements end []
      as_element :
          {d : Json N} {t : Text} {es : Elements N} {ts : List Text}
          → Writes d t
          → WritesElements es ts
          → WritesElements (element d es) (t ∷ ts)

    pub data WritesMembers : Members N → List Text → Type 0 where
      as_empty : WritesMembers empty []
      as_member :
          (k l w t : Text) {d : Json N} {ms : Members N} {ts : List Text}
          → Literal k l
          → Blank w
          → Writes d t
          → WritesMembers ms ts
          → WritesMembers (member k d ms) ((l ++ (b':' ∷ (w ++ t))) ∷ ts)

-- Properties without a value are left out.
unfoldable pub kept : {N : Type 0} → List (Text × Option (Json N)) → Members N
kept [] = empty
kept ((k, none) ∷ fs) = kept fs
kept ((k, some d) ∷ fs) = member k d (kept fs)

abbrev pub or_null_data : {N : Type 0} → Option (Json N) → Json N
or_null_data none = null
or_null_data (some d) = d

-- The data of a value: none of what is undefined, null of a number that is not finite and of an
-- undefined element.
module _ {N : Type 0} (is_finite : N → Bool) (replacer : Option (List (Option Text))) where
  unfoldable mutual
    unfolding kept select

    pub data_of : JsonValue N → Option (Json N)
    data_of JsonValue.undefined = none
    data_of JsonValue.null = some null
    data_of (JsonValue.boolean b) = some (boolean b)
    data_of (JsonValue.number n) = some (if is_finite n then number n else null)
    data_of (JsonValue.string s) = some (string s)
    data_of (JsonValue.array vs) = some (array (elements_of vs))
    data_of (JsonValue.object fs) = some (object (kept (select replacer (fields_of fs))))

    pub elements_of : Items N → Elements N
    elements_of Items.end = end
    elements_of (Items.item v vs) = element (or_null_data (data_of v)) (elements_of vs)

    pub fields_of : Fields N → List (Text × Option (Json N))
    fields_of Fields.empty = []
    fields_of (Fields.field k v fs) = (k, data_of v) ∷ fields_of fs
