-- ===== src/Mustache/Writer/Cached.antt =====
-- The cache of compiled templates does not show, as long as one set of tags is used.
use mathlib.Core.Option.{some-injective}
use mathlib.Core.Path.{subst}
use terminator.Base.{
  List, [], ◌∷◌, Option, none, some, Option-cases, Bool-cases, Text, text_eq, text_eq_iff, Result,
  ok, err, ◌≡◌, ◌≢◌, refl, sym, ap, ap₂, ◌∙◌, inl, inr, map,
}
use mathlib.Core.Bool.{false≢true}
use terminator.Registry.Table.{get, set, get-set_self, get-set_ne}
use terminator.Mustache.Token.{Nodes}
use terminator.Mustache.Parse.{parse}
use terminator.Mustache.Writer.{
  Writer, clear_cache, cached, compile, partial_cached, compile_partial,
}

-- The calls that go through the caches.
pub data Call : Type 0 where
  clears : Call
  compiles : Text → Call
  compiles_partial : Text → Text → Call

module _ (tags : List Text) where
  -- What the cache holds is what parsing with the tags gives.
  abbrev pub Agrees : Writer → Type 0
  Agrees writer =
      (template : Text) (fn : Nodes)
      → get template writer.cache ≡ some fn
      → parse template tags ≡ ok fn

  -- One call: what it gives, where it gives anything, and the writer afterwards.
  unfoldable pub call : Call → Writer → Option (Result Nodes) × Writer
  unfolding clear_cache compile compile_partial
  call clears writer = (none, clear_cache writer)
  call (compiles template) writer =
      let (fn, after) = compile template tags writer in (some fn, after)
  call (compiles_partial name template) writer =
      let (fn, after) = compile_partial name template tags writer in (some fn, after)

  unfoldable pub call_all : List Call → Writer → List (Option (Result Nodes))
  unfolding call
  call_all [] writer = []
  call_all (c ∷ calls) writer = let (result, after) = call c writer in result ∷ call_all calls after

  -- What a call gives without a cache.
  unfoldable pub fresh_call : Call → Option (Result Nodes)
  fresh_call clears = none
  fresh_call (compiles template) = some (parse template tags)
  fresh_call (compiles_partial name template) = some (parse template tags)

  set-Agrees :
      (template : Text) (fn : Nodes) (writer : Writer)
      → Agrees writer
      → parse template tags ≡ ok fn
      → Agrees (record writer { cache = set template fn writer.cache })
  set-Agrees template fn writer agrees parsed other g h =
      elim (Bool-cases (text_eq template other)) [
        | inl e ↦
            let same : template ≡ other = (text_eq_iff template other).0 e in
            let held : fn ≡ g = some-injective fn g (
              sym (get-set_self template fn writer.cache)
              ∙ ap (λ t. get t (set template fn writer.cache)) same
              ∙ h) in
            subst (λ t. parse t tags ≡ ok g) same (parsed ∙ ap ok held)
        | inr e ↦
            let ne : template ≢ other =
              λ q. false≢true (sym e ∙ (text_eq_iff template other).1 q) in
            agrees other g (sym (get-set_ne other template fn writer.cache ne) ∙ h)
      ]

  cached-Agrees :
      (template : Text) (writer : Writer) (r : Result Nodes)
      → Agrees writer
      → parse template tags ≡ r
      → ((cached template writer r).0 ≡ r) × Agrees (cached template writer r).1
  cached-Agrees template writer (err e) agrees parsed = (refl, agrees)
  cached-Agrees template writer (ok fn) agrees parsed =
      (refl, set-Agrees template fn writer agrees parsed)

  compile-Agrees :
      (template : Text) (writer : Writer)
      → Agrees writer
      → ((compile template tags writer).0 ≡ parse template tags)
        × Agrees (compile template tags writer).1
  unfolding compile
  compile-Agrees template writer agrees = elim (Option-cases (get template writer.cache)) [
    | inl missing ↦
        rw (compile, missing) (cached-Agrees template writer (parse template tags) agrees refl)
    | inr (fn, held) ↦ rw (compile, held) (sym (agrees template fn held), agrees)
  ]

  partial_cached-Agrees :
      (name : Text) (out : Result Nodes × Writer)
      → Agrees out.1
      → ((partial_cached name out).0 ≡ out.0) × Agrees (partial_cached name out).1
  partial_cached-Agrees name (err e, writer) agrees = (refl, agrees)
  partial_cached-Agrees name (ok fn, writer) agrees = (refl, agrees)

  call-Agrees :
      (c : Call) (writer : Writer)
      → Agrees writer
      → ((call c writer).0 ≡ fresh_call c) × Agrees (call c writer).1
  unfolding call fresh_call clear_cache compile_partial
  call-Agrees clears writer agrees = (refl, λ template fn h. unfold get in cc)
  call-Agrees (compiles template) writer agrees =
      let (same, after) = compile-Agrees template writer agrees in (ap some same, after)
  call-Agrees (compiles_partial name template) writer agrees =
      let (same, after) = compile-Agrees template writer agrees in
      let (same', after') = partial_cached-Agrees name (compile template tags writer) after in
      (ap some (same' ∙ same), after')

  -- Any sequence of calls that compile templates and partials with the same tags, or clear the caches,
  -- gives what parsing each template afresh with these tags gives, errors included, from a writer whose
  -- cache agrees with the tags, as an empty one does.
  pub call_all-fresh_call :
      (calls : List Call) (writer : Writer)
      → Agrees writer
      → call_all calls writer ≡ map fresh_call calls
  unfolding call_all
  call_all-fresh_call [] writer agrees = refl
  call_all-fresh_call (c ∷ calls) writer agrees =
      let (same, after) = call-Agrees c writer agrees in
      ap₂ (λ x xs. x ∷ xs) same (call_all-fresh_call calls (call c writer).1 after)
