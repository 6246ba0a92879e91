-- ===== src/Stub/Matcher.antt =====
-- The three request matchers: plugin/matcher/{And,Or,Not}RequestMatcher.java.
pub mod Meaning
use terminator.Base.{
  ℕ, ◌+◌, Bool, true, false, ◌||◌, List, [], ◌∷◌, Result, ok, ◌>>=◌, length, ◌==◌, if◌then◌else◌,
}
use mathlib.Core.Bool
use terminator.Stub.Data.{Operator, and, or, not, StubCondition, RequestElement, java_equals}

-- `condition.getKey().equals(re.getKey()) && condition.getValue().equals(re.getValue())`
unfoldable pub same_pair : StubCondition → RequestElement → Result Bool
unfolding java_equals
same_pair c re = do
  same_key ← java_equals c.key re.key
  if same_key then java_equals c.value re.value else ok false

-- The inner loop over the elements, with its `break`: the final `isMatch`.
unfoldable pub has_element : StubCondition → List RequestElement → Result Bool
unfolding same_pair
has_element c [] = ok false
has_element c (re ∷ es) = do same ← same_pair c re; if same then ok true else has_element c es

-- The outer loop of `AndRequestMatcher`: the value of `i` where it stops.
unfoldable pub and_index : List RequestElement → ℕ → List StubCondition → Result ℕ
and_index es i [] = ok i
and_index es i (c ∷ cs) = do
  found ← has_element c es
  if found then and_index es (i + 1) cs else ok i

-- `AndRequestMatcher.isMatch`
unfoldable pub and_match : List StubCondition → List RequestElement → Result Bool
unfolding and_index
and_match cs es = do i ← and_index es 0 cs; ok (length cs == i)

-- `OrRequestMatcher.isMatch`: the final `orMatch`.
unfoldable pub or_match : List StubCondition → List RequestElement → Result Bool
or_match [] es = ok false
or_match (c ∷ cs) es = do found ← has_element c es; if found then ok true else or_match cs es

-- The outer loop of `NotRequestMatcher`: the final `isMatch`, which is kept across rounds.
unfoldable pub not_loop : Bool → List StubCondition → List RequestElement → Result Bool
not_loop is_match [] es = ok is_match
not_loop is_match (c ∷ cs) es = do
  found ← has_element c es
  let seen = is_match || found
  if seen then ok seen else not_loop seen cs es

-- `NotRequestMatcher.isMatch`
unfoldable pub not_match : List StubCondition → List RequestElement → Result Bool
unfolding not_loop
not_match cs es = do is_match ← not_loop false cs es; ok (Bool.not is_match)

-- The matcher that the stub handler makes for an operator, applied.
unfoldable pub is_match : Operator → List StubCondition → List RequestElement → Result Bool
unfolding and_match or_match not_match has_element
is_match not cs es = not_match cs es
is_match and cs es = and_match cs es
is_match or cs es = or_match cs es
