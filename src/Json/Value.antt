-- ===== src/Json/Value.antt =====
-- What json2.js is given to write, over the program's numbers.
use terminator.Base.{Bool, Text}

-- A value without a `toJSON` method. `undefined` is also every function. An object lists its own
-- properties in the order in which `for` visits them.
mutual
  pub data JsonValue (N : Type 0) : Type 0 where
    undefined null : JsonValue N
    boolean : Bool → JsonValue N
    number : N → JsonValue N
    string : Text → JsonValue N
    array : Items N → JsonValue N
    object : Fields N → JsonValue N

  pub data Items (N : Type 0) : Type 0 where
    end : Items N
    item : JsonValue N → Items N → Items N

  pub data Fields (N : Type 0) : Type 0 where
    empty : Fields N
    field : Text → JsonValue N → Fields N → Fields N
