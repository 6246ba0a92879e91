-- ===== src/Stub/Handler.antt =====
-- server/common/stub/BaseStubServerHandler.java, with the response of
-- server/http/HttpStubServerHandler.java. Sorting is the JDK's and comes as a parameter, as do the
-- request, its extractor, and the UTF-8 length of a text.
pub mod Choice
use terminator.Base.{
  ℕ, Bool, List, [], ◌∷◌, Option, none, some, Text, codes, Result, ok, err, null_pointer, ◌>>=◌, ℤ,
  if◌then◌else◌,
}
use terminator.Stub.Data.{Operator, StubCondition, StubData, RequestElement}
use terminator.Stub.Matcher.{is_match}
use terminator.Stub.Comparator.{compare}

-- The parts of a `DefaultHttpResponse` that the handlers set.
pub record HttpResponse : Type 0 where
  pub status : ℕ
  pub content_type : Text
  pub content_length : ℕ
  pub content : Text

abbrev pub html : Text
html = codes "text/html; charset=utf-8"

abbrev pub default_http_body : Text
default_http_body = codes "You see this message because the response to this request is not set!"

-- What one message makes the handler do.
pub data Outcome (Request : Type 0) : Type 0 where
  respond : HttpResponse → Outcome Request
  forward : Request → Outcome Request

module _ (utf8_length : Text → ℕ) where
  abbrev pub hit_response : Text → HttpResponse
  hit_response content = record {
    status = 200;
    content_type = html;
    content_length = utf8_length content;
    content = content;
  }

  -- `HttpStubServerHandler.responseWhenHit`; a null content throws.
  unfoldable pub response_when_hit : Option Text → Result HttpResponse
  response_when_hit none = err null_pointer
  response_when_hit (some content) = ok (hit_response content)

  -- The loop over the sorted stubs: the response of the first that matches, or null.
  unfoldable pub first_hit : List StubData → List RequestElement → Result (Option HttpResponse)
  unfolding response_when_hit
  first_hit [] es = ok none
  first_hit (d ∷ ds) es = elim d.operator [
    | none ↦ err null_pointer
    | some op ↦ do
      conditions ← elim d.conditions [ none ↦ err null_pointer | some cs ↦ ok cs ]
      matches ← is_match op conditions es
      let answer = (do r ← response_when_hit d.response; ok (some r))
      if matches then answer else first_hit ds es
  ]

-- `HttpStubServerHandler.responseWhenNotHit`
unfoldable pub response_when_not_hit : HttpResponse
response_when_not_hit = record {
  status = 501;
  content_type = html;
  content_length = 69;
  content = default_http_body;
}

module _ {Request : Type 0} (utf8_length : Text → ℕ) (extract : Request → List RequestElement)
    (sort : (StubData → StubData → Result ℤ) → List StubData → Result (List StubData)) where
  -- `messageReceived`, on the stub list of the storage and the flag `farward`. The list is sorted in
  -- place: the second result is the list as the call leaves it.
  unfoldable pub message_received :
      Bool → List StubData → Request → Result (Outcome Request × List StubData)
  unfolding first_hit response_when_not_hit
  message_received farward stub_data request = do
    let elements = extract request
    sorted ← sort compare stub_data
    response ← first_hit utf8_length sorted elements
    ok (elim response [
      | none ↦
          if farward then (forward request, sorted) else (respond response_when_not_hit, sorted)
      | some r ↦ (respond r, sorted)
    ])
