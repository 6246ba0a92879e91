-- ===== src/Mustache/Writer.antt =====
-- `Writer` in mustache.js: the caches of compiled templates and of partials. A compiled template is the
-- tree that it renders.
pub mod Cached
use terminator.Base.{List, [], ◌∷◌, Option, none, some, Text, Result, ok, err, ◌>>=◌}
use terminator.Registry.Table.{get, set}
use terminator.Mustache.Token.{Nodes}
use terminator.Mustache.Parse.{parse}

pub record Writer : Type 0 where
  pub cache : List (Text × Nodes)
  pub partial_cache : List (Text × Nodes)

unfoldable pub clear_cache : Writer → Writer
clear_cache writer = record { cache = []; partial_cache = [] }

-- What parsing gave is kept in the cache; where parsing throws nothing is.
abbrev pub cached : Text → Writer → Result Nodes → Result Nodes × Writer
cached template writer (err e) = (err e, writer)
cached template writer (ok fn) = (ok fn, record writer { cache = set template fn writer.cache })

-- `compile`; the key of the cache is the template alone, whatever the tags.
unfoldable pub compile : Text → List Text → Writer → Result Nodes × Writer
compile template tags writer = elim (get template writer.cache) [
  | some fn ↦ (ok fn, writer)
  | none ↦ cached template writer (parse template tags)
]

abbrev pub partial_cached : Text → Result Nodes × Writer → Result Nodes × Writer
partial_cached name (err e, writer) = (err e, writer)
partial_cached name (ok fn, writer) =
    (ok fn, record writer { partial_cache = set name fn writer.partial_cache })

unfoldable pub compile_partial : Text → Text → List Text → Writer → Result Nodes × Writer
unfolding compile
compile_partial name template tags writer = partial_cached name (compile template tags writer)
