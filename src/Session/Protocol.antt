-- ===== src/Session/Protocol.antt =====
-- Rules by which an action goes through the stages of a protocol. At each stage something holds of the
-- shared state, which all others keep; a call that takes effect can bring the next stage, and an error
-- ends the protocol.
use ping_goat.Common.{Bool, Result, err, false, ok, refl, suc, sym, true, ℕ, ◌≡◌}
use ping_goat.Database.{Uuid, Db, Time, Stmt, DbError}
use mathlib.Core.Path.{subst}
use ping_goat.Session.{
  Signal, unheard, refused, delivered, begin_reply, reply, tx_reply, signal, ◌>>=◌, ◌>>=◌, with_db,
  query, Fault, or_else, begin, commit, Exec, require, tx_query, pure, Tx, raise, Shared, World,
}

-- What all others do and how each call fares, from the next call on.
abbrev pub Signals : Type 0
Signals = ℕ → Signal

abbrev pub later : Signals → Signals
later o n = o (suc n)

-- What holds at a stage depends on the signals to come: `I o g s`. At the end it can be left at any
-- time, and what the others do at a call keeps it.
module _ {G : Type 0} (I : Signals → G → Shared → Type 0) (idle : G)
    (rests : (o : Signals) (g : G) (s : Shared) → I o g s → I o idle s)
    (steady : (o : Signals) (g : G) (s : Shared) → I o g s → I (later o) g ((o 0).others s)) where
  -- How an action ends.
  abbrev pub Ends : {E A : Type 0} → (A → Type 0) → (A → G) → Result E A → Signals → Shared → Type 0
  Ends Q post (ok a) o s = Q a × I o (post a) s
  Ends Q post (err e) o s = I o idle s

  abbrev EndsIn : {E A : Type 0} → (A → Type 0) → (A → G) → Result E A × World → Type 0
  EndsIn Q post (r, w) = Ends Q post r w.outside w.shared

  -- From one stage the action gets to that of its value, or to the end.
  pub record Moves {E A : Type 0} (g : G) (Q : A → Type 0) (post : A → G) (m : Exec E A)
      : Type 0 where
    pub at : (w : World) → I w.outside g w.shared → EndsIn Q post (m w)

  pub Moves-pure :
      {E A : Type 0} {Q : A → Type 0} {post : A → G} (a : A)
      → Q a
      → Moves {E = E} (post a) Q post (pure a)
  Moves-pure a q = record { at = λ w i. (q, i) }

  weaken_at :
      {E A : Type 0} {Q R : A → Type 0} (post : A → G) (r : Result E A) (o : Signals) (s : Shared)
      → ((a : A) → Q a → R a)
      → Ends Q post r o s
      → Ends R post r o s
  weaken_at post (ok a) o s h (q, i) = (h a q, i)
  weaken_at post (err e) o s h i = i

  pub Moves-weaken :
      {E A : Type 0} {g : G} {Q R : A → Type 0} {post : A → G} {m : Exec E A}
      → ((a : A) → Q a → R a)
      → Moves g Q post m
      → Moves g R post m
  Moves-weaken {post} {m} h first = record {
    at = λ w i. weaken_at post (m w).0 (m w).1.outside (m w).1.shared h (first.at w i);
  }

  pub Moves-raise :
      {E A : Type 0} {g : G} {Q : A → Type 0} {post : A → G} (e : E)
      → Moves {E = E} {A = A} g Q post (raise e)
  Moves-raise {g} e = record { at = λ w i. rests w.outside g w.shared i }

  bind_at :
      {E A B : Type 0} (Q : A → Type 0) (post : A → G) (R : B → Type 0) (last : B → G)
      (r : Result E A) (w : World) (f : A → Exec E B)
      → Ends Q post r w.outside w.shared
      → ((a : A) → Q a → Moves (post a) R last (f a))
      → EndsIn R last ((◌>>=◌ (λ _. (r, w)) f) w)
  bind_at Q post R last (ok a) w f (q, i) next = (next a q).at w i
  bind_at Q post R last (err e) w f i next = i

  pub Moves-bind :
      {E A B : Type 0} {g : G} {Q : A → Type 0} {post : A → G} {R : B → Type 0} {last : B → G}
      {m : Exec E A} {f : A → Exec E B}
      → Moves g Q post m
      → ((a : A) → Q a → Moves (post a) R last (f a))
      → Moves g R last (m >>= f)
  Moves-bind {Q} {post} {R} {last} {m} {f} first next = record {
    at = λ w i. bind_at Q post R last (m w).0 (m w).1 f (first.at w i) next;
  }

  else_at :
      {E F A : Type 0} (Q : A → Type 0) (post : A → G) (r : Result F A) (w : World) (f : F → E)
      → Ends Q post r w.outside w.shared
      → EndsIn Q post ((or_else (λ _. (r, w)) f) w)
  else_at Q post (ok a) w f ends = ends
  else_at Q post (err e) w f ends = ends

  pub Moves-or_else :
      {E F A : Type 0} {g : G} {Q : A → Type 0} {post : A → G} {m : Exec F A} (f : F → E)
      → Moves g Q post m
      → Moves {E = E} g Q post (or_else m f)
  Moves-or_else {Q} {post} {m} f first = record {
    at = λ w i. else_at Q post (m w).0 (m w).1 f (first.at w i);
  }

  pub Moves-require :
      {E : Type 0} {g : G} (test : Bool) (e : E)
      → Moves g (λ _. test ≡ true) (λ _. g) (require test e)
  Moves-require true e = record { at = λ w i. (refl, i) }
  Moves-require {g} false e = record { at = λ w i. rests w.outside g w.shared i }

  local_at :
      {E A : Type 0} (g : G) (r : Result E A) (o : Signals) (s : Shared)
      → I o g s
      → Ends (λ _. Unit {0}) (λ _. g) r o s
  local_at g (ok a) o s i = (tt, i)
  local_at g (err e) o s i = rests o g s i

  -- An action that only this process sees.
  pub Moves-local :
      {E A : Type 0} {g : G} (m : Exec E A)
      → ((w : World) → (m w).1.shared ≡ w.shared)
      → ((w : World) → (m w).1.outside ≡ w.outside)
      → Moves g (λ _. Unit {0}) (λ _. g) m
  Moves-local {g} m shared outside = record {
    at = λ w i. local_at g (m w).0 (m w).1.outside (m w).1.shared (
        subst (λ o. I o g (m w).1.shared) (sym (outside w))
          (subst (I w.outside g) (sym (shared w)) i));
  }

  reply_at :
      {A : Type 0} (g : G) (post : A → G) (fault : Fault) (o : Signals) (s : Shared)
      (r : Db × Result DbError A)
      → I o g s
      → Ends (λ _. Unit {0}) post r.1 o (with_db s r.0)
      → let (r', s') = reply fault s r in Ends (λ _. Unit {0}) post r' o s'
  reply_at g post delivered o s (db, r) i ends = ends
  reply_at g post refused o s (db, r) i ends = rests o g s i
  reply_at g post unheard o s (db, ok a) i ends = rests o (post a) (with_db s db) ends.1
  reply_at g post unheard o s (db, err e) i ends = ends

  -- A statement on the pool: what it makes of the stage, by its row count.
  pub Moves-query :
      {A : Type 0} {g : G} {post : A → G} (stmt : Stmt A)
      → ((now : Time) (uuid : Uuid) (o : Signals) (s : Shared)
          → I o g s
          → let (db, r) = stmt now uuid s.db in Ends (λ _. Unit {0}) post r o (with_db s db))
      → Moves g (λ _. Unit {0}) post (query stmt)
  unfolding query
  Moves-query {g} {post} stmt moves = record {
    at = λ w i.
        let c = signal w in
        let s = c.others w.shared in
        let i' = steady w.outside g w.shared i in
        reply_at g post c.fault (later w.outside) s (stmt c.now c.uuid s.db) i'
          (moves c.now c.uuid (later w.outside) s i');
  }

  begin_at :
      (g : G) (fault : Fault) (now : Time) (o : Signals) (s : Shared)
      → I o g s
      → Ends (λ (tx : Tx). (db : Db) → tx.writes db ≡ db) (λ _. g) (begin_reply fault now) o s
  begin_at g delivered now o s i = ((λ db. refl), i)
  begin_at g refused now o s i = rests o g s i
  begin_at g unheard now o s i = rests o g s i

  pub Moves-begin : {g : G} → Moves g (λ tx. (db : Db) → tx.writes db ≡ db) (λ _. g) begin
  unfolding begin
  Moves-begin {g} = record {
    at = λ w i.
        begin_at g (signal w).fault (signal w).now (later w.outside) _
          (steady w.outside g w.shared i);
  }

  tx_at :
      {A : Type 0} (g : G) (Q : Tx → Type 0) (fault : Fault) (r : Result DbError A) (tx : Tx)
      (o : Signals) (s : Shared)
      → I o g s
      → Q tx
      → Ends (λ (a : A × Tx). Q a.1) (λ _. g) (tx_reply fault r tx) o s
  tx_at g Q delivered (ok a) tx o s i q = (q, i)
  tx_at g Q delivered (err e) tx o s i q = rests o g s i
  tx_at g Q refused r tx o s i q = rests o g s i
  tx_at g Q unheard r tx o s i q = rests o g s i

  -- A statement on a transaction: nobody sees it, and the transaction has it behind its other writes.
  pub Moves-tx_query :
      {A : Type 0} {g : G} (stmt : Stmt A) (tx : Tx) (Q : Tx → Type 0)
      → ((uuid : Uuid) → Q (record tx { writes = λ db. (stmt tx.now uuid (tx.writes db)).0 }))
      → Moves g (λ a. Q a.1) (λ _. g) (tx_query stmt tx)
  unfolding tx_query
  Moves-tx_query {g} stmt tx Q q = record {
    at = λ w i.
        let c = signal w in
        let s = c.others w.shared in
        tx_at g Q c.fault (stmt tx.now c.uuid (tx.writes s.db)).1 _ (later w.outside) s
          (steady w.outside g w.shared i) (q c.uuid);
  }

  commit_at :
      (g : G) (fault : Fault) (o : Signals) (s : Shared) (db : Db)
      → I o g s
      → I o idle (with_db s db)
      → let (r, s') = reply fault s (db, ok tt) in
        Ends (λ (_ : Unit {0}). Unit {0}) (λ _. idle) r o s'
  commit_at g delivered o s db i done = (tt, done)
  commit_at g refused o s db i done = rests o g s i
  commit_at g unheard o s db i done = done

  -- The commit brings the end of the protocol, whether its reply arrives or not.
  pub Moves-commit :
      {g : G} (tx : Tx)
      → ((o : Signals) (s : Shared) → I o g s → I o idle (with_db s (tx.writes s.db)))
      → Moves g (λ _. Unit {0}) (λ _. idle) (commit tx)
  unfolding commit
  Moves-commit {g} tx moves = record {
    at = λ w i.
        let c = signal w in
        let s = c.others w.shared in
        let i' = steady w.outside g w.shared i in
        commit_at g c.fault (later w.outside) s (tx.writes s.db) i' (moves (later w.outside) s i');
  }
