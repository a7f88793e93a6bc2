-- ===== src/Pipeline/Cloner/Dirs.antt =====
-- The temporary directory of `Clone` in internal/pipeline/cloner.go.
use ping_goat.Common.{
  Bool, Bool-cases, GoString, List, Option, Result, [], arith, err, false, filter, if◌then◌else◌,
  inl, inr, none, not, ok, refl, some, str_eq, str_eq_refl, true, ◌∷◌, ◌≡◌, ◌⊎◌,
}
use ping_goat.Database.{has_row}
use ping_goat.Session.{World, ◌>>=◌}
use ping_goat.Pipeline.Cloner.{
  clone_args, git_failed, invalid_sha, clone_timeout, head_failed, Git, GitRun, succeeded,
  deadline_exceeded, exited, CloneError, CloneOptions, Workspace, clone, remove_dir, give_up,
  resolve_head, after_clone, make_dir, valid_repo_url, rev_parse_args, is_sha,
}
use ping_goat.Pipeline.Prompt.Text.{trim_space}

-- os.MkdirTemp makes a directory that is not there.
abbrev pub IsFresh : Git → List GoString → Type 0
IsFresh git dirs =
    (dir : GoString) → git.mkdir_temp ≡ some dir → has_row (λ d. str_eq d dir) dirs ≡ false

abbrev IsAbsent : GoString → List GoString → Type 0
IsAbsent dir dirs = has_row (λ d. str_eq d dir) dirs ≡ false

filter_absent :
    (dir : GoString) (dirs : List GoString)
    → IsAbsent dir dirs
    → filter (λ d. not (str_eq d dir)) dirs ≡ dirs
filter_absent dir [] h = refl
filter_absent dir (d ∷ dirs) h = ground (arith, filter_absent dir dirs)

-- A directory that was not there is gone after its removal.
pub filter_fresh :
    (dir : GoString) (dirs : List GoString)
    → IsAbsent dir dirs
    → filter (λ d. not (str_eq d dir)) (dir ∷ dirs) ≡ dirs
filter_fresh dir dirs h = ground (arith, str_eq_refl dir, filter_absent dir dirs h)

-- What is left behind the removal of the directory that was made, or where none was made: the other
-- directories as they were, and besides them at most that directory, if os.RemoveAll failed.
abbrev pub IsTidy : Bool → Option GoString → List GoString → List GoString → Type 0
IsTidy true made before dirs = dirs ≡ before
IsTidy false made before dirs =
    (dirs ≡ before) ⊎ ((dir : GoString) × (made ≡ some dir) × (dirs ≡ dir ∷ before))

pub IsTidy-refl :
    (removed : Bool) (made : Option GoString) (dirs : List GoString) → IsTidy removed made dirs dirs
IsTidy-refl true made dirs = refl
IsTidy-refl false made dirs = inl refl

pub remove_tidies :
    (removed : Bool) (made : Option GoString) (dir : GoString) (before dirs : List GoString)
    → made ≡ some dir
    → IsAbsent dir before
    → dirs ≡ dir ∷ before
    → IsTidy removed made before (if removed then filter (λ d. not (str_eq d dir)) dirs else dirs)
remove_tidies true made dir before dirs e absent same = rw same (filter_fresh dir before absent)
remove_tidies false made dir before dirs e absent same = inr (dir, e, same)

-- What a clone leaves: its directory with a workspace, and with an error what its removal leaves.
abbrev pub Leaves : Git → List GoString → Result CloneError Workspace → List GoString → Type 0
Leaves git before (ok ws) dirs = (git.mkdir_temp ≡ some ws.dir) × (dirs ≡ ws.dir ∷ before)
Leaves git before (err e) dirs = IsTidy git.remove_all git.mkdir_temp before dirs

module _ (git : Git) (before : List GoString) (dir : GoString) (e : git.mkdir_temp ≡ some dir)
    (absent : IsAbsent dir before) where
  abbrev Ends : Result CloneError Workspace × World → Type 0
  Ends (r, w) = Leaves git before r w.temp_dirs

  give_up-Ends :
      (w : World) (f : CloneError)
      → w.temp_dirs ≡ dir ∷ before
      → Ends (give_up {A = Workspace} git.remove_all dir f w)
  unfolding give_up remove_dir
  give_up-Ends w f same =
      remove_tidies git.remove_all git.mkdir_temp dir before w.temp_dirs e absent same

  resolve_head-Ends :
      (run : GitRun) (w : World)
      → w.temp_dirs ≡ dir ∷ before
      → Ends (resolve_head git.remove_all dir run w)
  unfolding resolve_head
  resolve_head-Ends deadline_exceeded w same = give_up-Ends w head_failed same
  resolve_head-Ends exited w same = give_up-Ends w head_failed same
  resolve_head-Ends (succeeded output) w same = elim (Bool-cases (is_sha (trim_space output))) [
    | inl sha ↦ rw sha (e, same)
    | inr other ↦ rw other (give_up-Ends w invalid_sha same)
  ]

  after_clone-Ends :
      (run : GitRun) (w : World) → w.temp_dirs ≡ dir ∷ before → Ends (after_clone git dir run w)
  unfolding after_clone
  after_clone-Ends deadline_exceeded w same = give_up-Ends w clone_timeout same
  after_clone-Ends exited w same = give_up-Ends w git_failed same
  after_clone-Ends (succeeded _) w same = resolve_head-Ends (git.run (rev_parse_args dir)) w same

make_dir_ends :
    (git : Git) (opts : CloneOptions) (w : World) (made : Option GoString)
    → git.mkdir_temp ≡ made
    → IsFresh git w.temp_dirs
    → let (r, w') =
        (make_dir made >>= λ dir. after_clone git dir (git.run (clone_args opts dir))) w in
      Leaves git w.temp_dirs r w'.temp_dirs
unfolding make_dir
make_dir_ends git opts w none e fresh = IsTidy-refl git.remove_all git.mkdir_temp w.temp_dirs
make_dir_ends git opts w (some dir) e fresh =
    after_clone-Ends git w.temp_dirs dir e (fresh dir e) (git.run (clone_args opts dir))
      (record w { temp_dirs = dir ∷ w.temp_dirs }) refl

-- A clone that fails leaves no directory behind, unless os.RemoveAll fails; one that succeeds leaves its own, and no other, if
-- the directory that it makes was not there.
pub clone-Leaves :
    (git : Git) (opts : CloneOptions) (w : World)
    → IsFresh git w.temp_dirs
    → Leaves git w.temp_dirs (clone git opts w).0 (clone git opts w).1.temp_dirs
unfolding clone
clone-Leaves git opts w fresh = elim (Bool-cases (valid_repo_url opts.repo_url)) [
  | inr bad ↦ rw bad (IsTidy-refl git.remove_all git.mkdir_temp w.temp_dirs)
  | inl good ↦ rw good (make_dir_ends git opts w git.mkdir_temp refl fresh)
]
