-- ===== src/Session/Frames.antt =====
-- Rules by which an action leaves the temporary directories of the process as they are: only a clone
-- and its removal touch them.
use ping_goat.Common.{Bool, Result, err, false, ok, refl, true, ◌∙◌, ◌≡◌}
use ping_goat.Database.{Stmt}
use ping_goat.Session.{
  Exec, World, Tx, ◌>>=◌, or_else, require, pure, raise, query, begin, tx_query, commit,
}

-- The action leaves the temporary directories as they are.
pub record Frames {E A : Type 0} (m : Exec E A) : Type 0 where
  pub at : (w : World) → (m w).1.temp_dirs ≡ w.temp_dirs

pub Frames-pure : {E A : Type 0} (a : A) → Frames {E = E} (pure a)
Frames-pure a = record { at = λ w. refl }

pub Frames-raise : {E A : Type 0} (e : E) → Frames {E = E} {A = A} (raise e)
Frames-raise e = record { at = λ w. refl }

bind-Frames_at :
    {E A B : Type 0} (r : Result E A) (w : World) (f : A → Exec E B)
    → ((a : A) → Frames (f a))
    → let (r', w') = ((λ _. (r, w)) >>= f) w in w'.temp_dirs ≡ w.temp_dirs
bind-Frames_at (ok a) w f h = (h a).at w
bind-Frames_at (err e) w f h = refl

pub Frames-bind :
    {E A B : Type 0} {m : Exec E A} {f : A → Exec E B}
    → Frames m
    → ((a : A) → Frames (f a))
    → Frames (m >>= f)
Frames-bind {m} {f} first next = record {
  at = λ w. bind-Frames_at (m w).0 (m w).1 f next ∙ first.at w;
}

else_frames_at :
    {E F A : Type 0} (r : Result F A) (w : World) (f : F → E)
    → let (r', w') = (or_else (λ _. (r, w)) f) w in w'.temp_dirs ≡ w.temp_dirs
else_frames_at (ok a) w f = refl
else_frames_at (err e) w f = refl

pub Frames-or_else :
    {E F A : Type 0} {m : Exec F A} (f : F → E) → Frames m → Frames {E = E} (or_else m f)
Frames-or_else {m} f first = record { at = λ w. else_frames_at (m w).0 (m w).1 f ∙ first.at w }

pub Frames-require : {E : Type 0} (test : Bool) (e : E) → Frames (require test e)
Frames-require true e = record { at = λ w. refl }
Frames-require false e = record { at = λ w. refl }

pub Frames-query : {A : Type 0} (stmt : Stmt A) → Frames (query stmt)
unfolding query
Frames-query stmt = record { at = λ w. refl }

pub Frames-begin : Frames begin
unfolding begin
Frames-begin = record { at = λ w. refl }

pub Frames-tx_query : {A : Type 0} (stmt : Stmt A) (tx : Tx) → Frames (tx_query stmt tx)
unfolding tx_query
Frames-tx_query stmt tx = record { at = λ w. refl }

pub Frames-commit : (tx : Tx) → Frames (commit tx)
unfolding commit
Frames-commit tx = record { at = λ w. refl }
