-- ===== src/Pipeline/Parser/Pool/Invariant.antt =====
-- What holds of the goroutines of internal/pipeline/parser.go while the context has not ended.
use mathlib.Core.List.Perm
use mathlib.Core.List.{perm_middle}
use ping_goat.Common.{
  GoString, List, Option, Perm, [], ap, append_assoc, false, none, refl, some, sym, ◌++◌, ◌∙◌, ◌∷◌,
  ◌≡◌, ◌≢◌,
}
use ping_goat.Pipeline.Batcher.{ParsedFile}
use ping_goat.Pipeline.Parser.Pool.{
  cancel, give_back, close_results, finish, give_up, deliver, skip, read, abandon, close_paths,
  feed, gone, closed, Step, waiting, sending, feeding, reading, finished, Pool, Worker, Feeder,
}
use ping_goat.Pipeline.Parser.{onto, parse_all}

-- What a path gives.
abbrev made : Option ParsedFile → List ParsedFile
made none = []
made (some file) = file ∷ []

abbrev pub IsRunning : Worker → Type 0
IsRunning w = w ≢ finished

module _ (parse : GoString → Option ParsedFile) where
  -- The results that a worker and the feeding goroutine still owe.
  abbrev hold : Worker → List ParsedFile
  hold waiting = []
  hold (reading path) = made (parse path)
  hold (sending file) = file ∷ []
  hold finished = []

  abbrev pub in_hand : List Worker → List ParsedFile
  in_hand [] = []
  in_hand (w ∷ ws) = hold w ++ in_hand ws

  abbrev pub ahead : Feeder → List ParsedFile
  ahead (feeding paths) = parse_all parse paths
  ahead closed = []
  ahead gone = []

  abbrev pub content : Pool → List ParsedFile
  content s = s.results ++ (in_hand s.workers ++ ahead s.feeder)

  in_hand-at :
      (before after : List Worker) (w : Worker)
      → in_hand (before ++ w ∷ after) ≡ in_hand before ++ (hold w ++ in_hand after)
  in_hand-at [] after w = refl
  in_hand-at (b ∷ before) after w =
      ap (λ l. hold b ++ l) (in_hand-at before after w)
      ∙ sym (append_assoc (hold b) (in_hand before) (hold w ++ in_hand after))

onto-made : (o : Option ParsedFile) (files : List ParsedFile) → onto o files ≡ made o ++ files
onto-made none files = refl
onto-made (some file) files = refl

-- One file at another place.
move :
    (file : ParsedFile) (xs ys xs' ys' : List ParsedFile)
    → xs ++ ys ≡ xs' ++ ys'
    → Perm (xs ++ file ∷ ys) (xs' ++ file ∷ ys')
move file xs ys xs' ys' e = Perm.trans (perm_middle xs ys) (rw e (Perm.symm (perm_middle xs' ys')))

feed_perm :
    (o : Option ParsedFile) (r hb ha rest : List ParsedFile)
    → Perm (r ++ ((hb ++ (made o ++ ha)) ++ rest)) (r ++ ((hb ++ ha) ++ (made o ++ rest)))
feed_perm none r hb ha rest = Perm.refl (r ++ ((hb ++ ha) ++ rest))
feed_perm (some file) r hb ha rest =
    let from : r ++ ((hb ++ file ∷ ha) ++ rest) ≡ (r ++ hb) ++ file ∷ (ha ++ rest) =
      simp append_assoc in
    let to : r ++ ((hb ++ ha) ++ file ∷ rest) ≡ (r ++ (hb ++ ha)) ++ file ∷ rest =
      simp append_assoc in
    rw (from, to) (move file (r ++ hb) (ha ++ rest) (r ++ (hb ++ ha)) rest (simp append_assoc))

deliver_perm :
    (file : ParsedFile) (r hb ha rest : List ParsedFile)
    → Perm ((r ++ file ∷ []) ++ ((hb ++ ha) ++ rest)) (r ++ ((hb ++ file ∷ ha) ++ rest))
deliver_perm file r hb ha rest =
    let from : (r ++ file ∷ []) ++ ((hb ++ ha) ++ rest) ≡ r ++ file ∷ ((hb ++ ha) ++ rest) =
      simp append_assoc in
    let to : r ++ ((hb ++ file ∷ ha) ++ rest) ≡ (r ++ hb) ++ file ∷ (ha ++ rest) =
      simp append_assoc in
    rw (from, to) (move file r ((hb ++ ha) ++ rest) (r ++ hb) (ha ++ rest) (simp append_assoc))

module _ (parse : GoString → Option ParsedFile) where
  content_replace :
      (r rest : List ParsedFile) (before after : List Worker) (w w' : Worker)
      → hold parse w ≡ hold parse w'
      → r ++ (in_hand parse (before ++ w ∷ after) ++ rest)
        ≡ r ++ (in_hand parse (before ++ w' ∷ after) ++ rest)
  content_replace r rest before after w w' e =
      rw (in_hand-at parse before after w, in_hand-at parse before after w', e) refl

  -- While the context lives no step loses a file or makes one up.
  pub Step-content :
      {s t : Pool} → s.cancelled ≡ false → Step parse s t → Perm (content parse t) (content parse s)
  unfolding parse_all
  Step-content {s} live (feed path paths before after e f g) =
      rw
        (
          g,
          e,
          f,
          in_hand-at parse before after (reading path),
          in_hand-at parse before after waiting,
        )
        (rw (onto-made (parse path) (parse_all parse paths)) (
          feed_perm (parse path) s.results (in_hand parse before) (in_hand parse after)
            (parse_all parse paths)))
  Step-content {s} live (close_paths e g) = rw (g, e) (Perm.refl _)
  Step-content live (abandon path paths e c g) = cc
  Step-content {s} live (read path file before after e f g) =
      rw
        (
          g,
          e,
          content_replace s.results (ahead parse s.feeder) before after (reading path)
              (sending file) (ap made f),
        )
        (Perm.refl _)
  Step-content {s} live (skip path before after e f g) =
      rw
        (
          g,
          e,
          content_replace s.results (ahead parse s.feeder) before after (reading path) waiting
              (ap made f),
        )
        (Perm.refl _)
  Step-content {s} live (deliver file before after e c g) =
      rw (g, e, in_hand-at parse before after (sending file), in_hand-at parse before after waiting)
        (deliver_perm file s.results (in_hand parse before) (in_hand parse after)
          (ahead parse s.feeder))
  Step-content live (give_up file before after e c g) = cc
  Step-content {s} live (finish before after e c g) =
      rw (g, e, content_replace s.results (ahead parse s.feeder) before after waiting finished refl)
        (Perm.refl _)
  Step-content live (close_results c done g) = rw g (Perm.refl _)
  Step-content live (give_back c g) = rw g (Perm.refl _)
  Step-content live (cancel c g) = rw g (Perm.refl _)
