-- ===== src/Search/Cursor.antt =====
-- opensearch-extension-core/src/lib.rs: the cursor of $vectorSearch on a replica set. The first
-- call of `next_result` runs the search; each call then hands out one candidate.
pub mod Drain
use rust_sdk_mongodb_extensi.Prelude.{
  ℕ, String, Bool, true, false, Option, none, some, List, [], ◌∷◌, if◌then◌else◌,
}
use rust_sdk_mongodb_extensi.Prelude.Text.{◌+ₛ◌}
use rust_sdk_mongodb_extensi.Errors.{text, bad_value, ExtensionResult, ok, err}
use rust_sdk_mongodb_extensi.Bson.{Bson, Document, end, field, remove}
use rust_sdk_mongodb_extensi.Search.Args.{QueryArgs}
use rust_sdk_mongodb_extensi.Search.Control.{QueryControl, Action, ◌>>=◌, ◌>>◌, pure}
use rust_sdk_mongodb_extensi.Search.Fetch.{
  SearchState, OpenSearchConfig, score_key, fetch_candidates,
}
use rust_sdk_mongodb_extensi.Stage.{Next, advanced, eof}

-- doc! { "$vectorSearchScore": score }
abbrev metadata_of : Option Bson → Option Document
metadata_of none = none
metadata_of (some score) = some (field score_key score end)

-- The row of a candidate: its score is moved to the metadata.
unfoldable pub row : Document → Next
unfolding remove
row document = let (score, rest) = remove score_key document in advanced rest (metadata_of score)

unfoldable pub pop_front : SearchState → Next × SearchState
unfolding row
pop_front state = elim state.pending [
  | [] ↦ (eof, state)
  | document ∷ rest ↦ (row document, record state { pending = rest })
]

-- The end of `next_result`. On an error the state is the one that came in.
abbrev conclude :
    {W : Type 0}
    → SearchState
    → ExtensionResult SearchState × W
    → (ExtensionResult Next × SearchState) × W
conclude state (ok loaded, w) = ((ok (pop_front loaded).0, (pop_front loaded).1), w)
conclude state (err e, w) = ((err e, state), w)

module _ (ctx : QueryControl) where
  open ctx use {World, check_interrupt}

  unfoldable pub load : SearchState → Action World SearchState
  load state = if state.loaded then pure state else do
    documents ← fetch_candidates ctx state
    pure (record state { pending = documents; loaded = true })

  unfoldable pub next_result : SearchState → World → (ExtensionResult Next × SearchState) × World
  unfolding pop_front
  next_result state w = conclude state ((do check_interrupt; load state) w)

  -- The host's calls of `next`, one after another.
  unfoldable pub pull :
      ℕ → SearchState → World → (List (ExtensionResult Next) × SearchState) × World
  unfolding next_result
  pull ℕ.zero state w = (([], state), w)
  pull (ℕ.suc n) state w =
      let ((r, state'), w') = next_result state w in
      let ((rs, state''), w'') = pull n state' w' in ((r ∷ rs, state''), w'')
