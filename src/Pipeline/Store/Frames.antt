-- ===== src/Pipeline/Store/Frames.antt =====
-- internal/pipeline/store.go leaves the temporary directories alone.
use ping_goat.Common.{List, [], ◌∷◌}
use ping_goat.Session.Frames.{
  Frames, Frames-pure, Frames-bind, Frames-or_else, Frames-require, Frames-begin, Frames-tx_query,
  Frames-commit,
}
use ping_goat.Pipeline.Store.{StoreInput, StoredDoc, store_docs, write_all, store_results}
use ping_goat.Session.{Tx}

store_docs-Frames :
    (input : StoreInput) (docs : List StoredDoc) (tx : Tx) → Frames (store_docs input docs tx)
unfolding store_docs
store_docs-Frames input [] tx = Frames-pure tx
store_docs-Frames input (doc ∷ docs) tx =
    Frames-bind (Frames-or_else _ (Frames-tx_query _ tx)) (λ stored.
      Frames-bind (Frames-or_else _ (Frames-tx_query _ stored.1))
        (λ cached. store_docs-Frames input docs cached.1))

pub store_results-Frames : (input : StoreInput) → Frames (store_results input)
unfolding store_results write_all
store_results-Frames input =
    Frames-bind
      (Frames-bind (Frames-or_else _ Frames-begin) (λ tx.
        Frames-bind (store_docs-Frames input input.docs tx) (λ written.
          Frames-bind (Frames-or_else _ (Frames-tx_query _ written))
            (λ completed. Frames-bind (Frames-require _ _) (λ _. Frames-pure completed.1)))))
      (λ tx. Frames-or_else _ (Frames-commit tx))
