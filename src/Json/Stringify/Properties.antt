-- ===== src/Json/Stringify/Properties.antt =====
-- The texts of the properties of an object are the members of its data.
use mathlib.Core.Path.{subst}
use terminator.Base.{
  Bool, true, false, List, [], ◌∷◌, ◌++◌, Option, none, some, Text, codes, text_eq, All, ◌≡◌, ◌≢◌,
  inl, refl, if◌then◌else◌,
}
use terminator.Json.Quote.{quote}
use terminator.Json.Quote.Reads.{IsUnit16}
use terminator.Json.Stringify.{is_nonempty, or_null, push_member, members, find, pick, select}
use terminator.Json.Stringify.Grammar.{
  Json, Members, Literal, Writes, WritesMembers, as_null, as_true, as_false, as_number, as_string,
  as_array, as_object, as_empty, as_member, kept, or_null_data,
}
use terminator.Json.Stringify.Units.{KeyHasUnits, ReplacerHasUnits}
use terminator.Json.Stringify.Joins.{quote-Literal, not_Literal_nil}

module _ {N : Type 0} (number_text : N → Text)
    (number_text-ne-nil : (n : N) → number_text n ≢ []) where
  -- The text of a value, if it has data, is a text of that data.
  unfoldable pub Agrees : Option (Json N) → Option Text → Type 0
  Agrees none none = Unit
  Agrees (some d) (some t) = Writes number_text d t
  Agrees _ _ = ⊥

  Writes-ne-nil : (d : Json N) (t : Text) → Writes number_text d t → t ≢ []
  Writes-ne-nil d t as_null e = cc
  Writes-ne-nil d t as_true e = cc
  Writes-ne-nil d t as_false e = cc
  Writes-ne-nil d t (as_number n) e = number_text-ne-nil n e
  Writes-ne-nil d t (as_string s u l) e = not_Literal_nil s (subst (Literal s) e l)
  Writes-ne-nil d t (as_array es ts u w j) e = cc
  Writes-ne-nil d t (as_object ms ts u w j) e = cc

  pub or_null-Writes :
      (d : Option (Json N)) (t : Option Text)
      → Agrees d t
      → Writes number_text (or_null_data d) (or_null t)
  unfolding Agrees
  or_null-Writes none none a = as_null
  or_null-Writes none (some t) a = elim a [ ]
  or_null-Writes (some d) none a = elim a [ ]
  or_null-Writes (some d) (some []) a = absurd (Writes-ne-nil d [] a refl)
  or_null-Writes (some d) (some (c ∷ t)) a = a

  -- The same keys, with data and texts that agree.
  unfoldable pub Paired : List (Text × Option (Json N)) → List (Text × Option Text) → Type 0
  Paired [] [] = Unit
  Paired ((k, d) ∷ ds) ((l, t) ∷ ts) = (k ≡ l) × All IsUnit16 l × Agrees d t × Paired ds ts
  Paired _ _ = ⊥

  if-Agrees :
      (b : Bool) (d d' : Option (Json N)) (t t' : Option Text)
      → Agrees d t
      → Agrees d' t'
      → Agrees (if b then d else d') (if b then t else t')
  if-Agrees true d d' t t' a a' = a
  if-Agrees false d d' t t' a a' = a'

  find-Agrees :
      (k : Text) (ds : List (Text × Option (Json N))) (ts : List (Text × Option Text))
      → Paired ds ts
      → Agrees (find k ds) (find k ts)
  unfolding find Paired Agrees
  find-Agrees k [] [] h = tt
  find-Agrees k [] (t ∷ ts) h = elim h [ ]
  find-Agrees k (d ∷ ds) [] h = elim h [ ]
  find-Agrees k ((l, d) ∷ ds) ((m, t) ∷ ts) (e, u, a, h) =
      rw e (if-Agrees (text_eq m k) d (find k ds) t (find k ts) a (find-Agrees k ds ts h))

  pick-Paired :
      (ks : List (Option Text)) (ds : List (Text × Option (Json N)))
      (ts : List (Text × Option Text))
      → All KeyHasUnits ks
      → Paired ds ts
      → Paired (pick ks ds) (pick ks ts)
  unfolding pick Paired
  pick-Paired [] ds ts u h = tt
  pick-Paired (none ∷ ks) ds ts (u, us) h = pick-Paired ks ds ts us h
  pick-Paired (some k ∷ ks) ds ts (u, us) h =
      (refl, u, find-Agrees k ds ts h, pick-Paired ks ds ts us h)

  pub select-Paired :
      (r : Option (List (Option Text))) (ds : List (Text × Option (Json N)))
      (ts : List (Text × Option Text))
      → ReplacerHasUnits r
      → Paired ds ts
      → Paired (select r ds) (select r ts)
  unfolding select
  select-Paired none ds ts u h = h
  select-Paired (some ks) ds ts u h = pick-Paired ks ds ts u h

  colon-Writes :
      (b : Bool) (k t : Text) (d : Json N) (ms : Members N) (ts : List Text)
      → All IsUnit16 k
      → Writes number_text d t
      → WritesMembers number_text ms ts
      → WritesMembers number_text
          (Members.member k d ms)
          ((quote k ++ ((if b then codes ": " else codes ":") ++ t)) ∷ ts)
  colon-Writes true k t d ms ts u w ws =
      as_member k (quote k) (codes " ") t (quote-Literal k u) (inl refl, tt) w ws
  colon-Writes false k t d ms ts u w ws = as_member k (quote k) [] t (quote-Literal k u) tt w ws

  pub members-Writes :
      (gap : Text) (ds : List (Text × Option (Json N))) (ts : List (Text × Option Text))
      → Paired ds ts
      → WritesMembers number_text (kept ds) (members gap ts)
  unfolding members push_member kept Paired Agrees
  members-Writes gap [] [] h = as_empty
  members-Writes gap [] (t ∷ ts) h = elim h [ ]
  members-Writes gap (d ∷ ds) [] h = elim h [ ]
  members-Writes gap ((k, none) ∷ ds) ((l, none) ∷ ts) (e, u, a, h) = members-Writes gap ds ts h
  members-Writes gap ((k, none) ∷ ds) ((l, some t) ∷ ts) (e, u, a, h) = elim a [ ]
  members-Writes gap ((k, some d) ∷ ds) ((l, none) ∷ ts) (e, u, a, h) = elim a [ ]
  members-Writes gap ((k, some d) ∷ ds) ((l, some []) ∷ ts) (e, u, a, h) =
      absurd (Writes-ne-nil d [] a refl)
  members-Writes gap ((k, some d) ∷ ds) ((l, some (c ∷ t)) ∷ ts) (e, u, a, h) = rw e (
      colon-Writes (is_nonempty gap) l (c ∷ t) d (kept ds) (members gap ts) u a
        (members-Writes gap ds ts h))
