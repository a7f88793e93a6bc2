-- ===== src/Pipeline/Parser/Pool/Tests.antt =====
-- Two paths, of which one can be read, and one worker.
use mathlib.Core.List.Perm
use ping_goat.Common.{
  GoString, List, Option, Perm, [], arith, bytes, false, if◌then◌else◌, length, none, pos, refl,
  some, str_eq, ℕ, ◌*◌, ◌+◌, ◌∷◌, ◌≢◌, ◌≤◌,
}
use ping_goat.Pipeline.Batcher.{ParsedFile}
use ping_goat.Pipeline.Parser.{Disk, parse_file, parse_files}
use ping_goat.Pipeline.Parser.Pool.{
  give_back, close_results, finish, close_paths, skip, feed, deliver, reading, read, here, returned,
  next, feeding, finished, launch, closed, Run, Pool,
}
use ping_goat.Pipeline.Parser.Pool.Termination.{Run-bounded}
use ping_goat.Pipeline.Parser.Pool.Results.{parse_files_results}
use ping_goat.Pipeline.Parser.Pool.Progress.{Returns, parse_files-Returns}
use ping_goat.Pipeline.Parser.Pool.Cancel.{IsStuck, parse_files_hangs}

abbrev disk : Disk
disk = record {
  read_file = λ path. if str_eq path (bytes "a") then some (bytes "x") else none;
  rel = λ root path. some path;
  arrival = λ files. files;
  arrival-perm = λ files. Perm.refl files;
}

abbrev parse : GoString → Option ParsedFile
parse = parse_file disk.read_file disk.rel (bytes "r")

abbrev read_a : ParsedFile
read_a = record { path = bytes "a"; tier = pos 0; content = bytes "x" }

abbrev paths : List GoString
paths = bytes "a" ∷ bytes "b" ∷ []

-- Step by step: the first file is read and delivered, the second skipped, and the pool shut.
abbrev fed : Pool
fed = record (launch paths 1) {
  feeder = feeding (bytes "b" ∷ []);
  workers = reading (bytes "a") ∷ [];
}

abbrev done : Pool
done = record {
  feeder = closed;
  workers = finished ∷ [];
  caller = returned;
  results = read_a ∷ [];
  cancelled = false;
}

first_step : Run parse (launch paths 1) 1 fed
first_step = next here (feed (bytes "a") (bytes "b" ∷ []) [] [] refl refl refl)

whole-Run : Run parse (launch paths 1) 9 done
unfolding parse_file str_eq
whole-Run =
    next
      (next
        (next
          (next
            (next
              (next
                (next (next first_step (read (bytes "a") read_a [] [] refl refl refl))
                  (deliver read_a [] [] refl refl refl))
                (feed (bytes "b") [] [] [] refl refl refl))
              (skip (bytes "b") [] [] refl refl refl))
            (close_paths refl refl))
          (finish [] [] refl refl refl))
        (close_results refl (refl, tt) refl))
      (give_back refl refl)

Run-bounded_example : 9 ≤ 4 * length paths + 1 + 4
Run-bounded_example = Run-bounded paths 1 whole-Run

parse_files_results_example : Perm done.results (parse_files disk (bytes "r") paths)
parse_files_results_example =
    parse_files_results disk (bytes "r") paths 1 (omega arith) whole-Run refl refl

parse_files-Returns_example : Returns parse fed
parse_files-Returns_example = parse_files-Returns parse paths 1 fed first_step refl

parse_files_hangs_example :
    (k : ℕ) × (s : Pool) × Run parse (launch paths 2) k s × (s.caller ≢ returned) × IsStuck parse s
parse_files_hangs_example = parse_files_hangs parse (bytes "a") (bytes "b" ∷ []) 2 (omega arith)
