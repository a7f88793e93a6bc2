-- ===== src/Session/Keeps.antt =====
-- Rules by which an action keeps an invariant of the shared state, if all others keep it.
use ping_goat.Common.{
  Bool, Bool-cases, Result, [], err, false, inl, inr, length, ltb, ok, refl, suc, sym, true, ℕ,
  ◌++◌, ◌∷◌, ◌≡◌,
}
use ping_goat.Pipeline.Message.{JobMessage}
use mathlib.Core.Path.{subst}
use ping_goat.Database.{Uuid, DbError, Db, Time, Stmt}
use ping_goat.Session.{
  delivered, refused, unheard, reply, begin_reply, tx_reply, signal, with_db, commit, begin, arrive,
  ◌>>=◌, try_send, tx_query, require, query, Tx, pure, ◌>>=◌, or_else, raise, Fault, Shared, World,
  Exec,
}

module _ (P : Shared → Type 0) where
  -- All others keep the invariant, now and later.
  abbrev pub Steady : World → Type 0
  Steady w = (n : ℕ) (s : Shared) → P s → P ((w.outside n).others s)

  abbrev pub Holds : World → Type 0
  Holds w = P w.shared × Steady w

  abbrev pub Post : {E A : Type 0} → (A → Type 0) → Result E A → Type 0
  Post Q (ok a) = Q a
  Post Q (err e) = Unit {0}

  -- The action keeps the invariant on every path, and what it returns is as said.
  pub record Ensures {E A : Type 0} (Q : A → Type 0) (m : Exec E A) : Type 0 where
    pub at : (w : World) → Holds w → Holds (m w).1 × Post Q (m w).0

  Holds-arrive : (w : World) (s : Shared) → Steady w → P s → Holds (arrive w s)
  Holds-arrive w s steady p = (p, λ n. steady (suc n))

  pub Ensures-pure : {E A : Type 0} {Q : A → Type 0} (a : A) → Q a → Ensures {E = E} Q (pure a)
  Ensures-pure a q = record { at = λ w h. (h, q) }

  pub Ensures-raise : {E A : Type 0} {Q : A → Type 0} (e : E) → Ensures {E = E} {A = A} Q (raise e)
  Ensures-raise e = record { at = λ w h. (h, tt) }

  bind_at :
      {E A B : Type 0} {R : B → Type 0} (r : Result E A) (w : World) (f : A → Exec E B)
      → Holds w
      → ((a : A) → r ≡ ok a → Ensures R (f a))
      → let (r', w') = (◌>>=◌ (λ _. (r, w)) f) w in Holds w' × Post R r'
  bind_at (ok a) w f h next = (next a refl).at w h
  bind_at (err e) w f h next = (h, tt)

  pub Ensures-bind :
      {E A B : Type 0} {Q : A → Type 0} {R : B → Type 0} {m : Exec E A} {f : A → Exec E B}
      → Ensures Q m
      → ((a : A) → Q a → Ensures R (f a))
      → Ensures R (m >>= f)
  Ensures-bind {Q} {m} {f} first next = record {
    at = λ w h.
        let (h', q) = first.at w h in
        bind_at (m w).0 (m w).1 f h' (λ a e. next a (subst (Post Q) e q));
  }

  else_at :
      {E F A : Type 0} (Q : A → Type 0) (r : Result F A) (w : World) (f : F → E)
      → Holds w
      → Post Q r
      → let (r', w') = (or_else (λ _. (r, w)) f) w in Holds w' × Post Q r'
  else_at Q (ok a) w f h q = (h, q)
  else_at Q (err e) w f h q = (h, tt)

  pub Ensures-or_else :
      {E F A : Type 0} {Q : A → Type 0} {m : Exec F A} (f : F → E)
      → Ensures Q m
      → Ensures {E = E} Q (or_else m f)
  Ensures-or_else {m} f first = record {
    at = λ w h. let (h', q) = first.at w h in else_at _ (m w).0 (m w).1 f h' q;
  }

  pub Ensures-require :
      {E : Type 0} (test : Bool) (e : E) → Ensures (λ _. test ≡ true) (require test e)
  Ensures-require true e = record { at = λ w h. (h, refl) }
  Ensures-require false e = record { at = λ w h. (h, tt) }

  -- A statement keeps the invariant, and the row or the count that it returns is as said.
  abbrev pub StmtKeeps : {A : Type 0} → (A → Type 0) → Stmt A → Type 0
  StmtKeeps Q stmt =
      (now : Time) (uuid : Uuid) (s : Shared)
      → P s
      → P (with_db s (stmt now uuid s.db).0) × Post Q (stmt now uuid s.db).1

  Post-unit : {E A : Type 0} (r : Result E A) → Post (λ _. Unit {0}) r
  Post-unit (ok a) = tt
  Post-unit (err e) = tt

  pub StmtKeeps-of :
      {A : Type 0} (stmt : Stmt A)
      → ((now : Time) (uuid : Uuid) (s : Shared) → P s → P (with_db s (stmt now uuid s.db).0))
      → StmtKeeps (λ _. Unit {0}) stmt
  StmtKeeps-of stmt keep = λ now uuid s p. (keep now uuid s p, Post-unit (stmt now uuid s.db).1)

  reply_at :
      {A : Type 0} (Q : A → Type 0) (fault : Fault) (w : World) (s : Shared)
      (r : Db × Result DbError A)
      → Steady w
      → P s
      → P (with_db s r.0)
      → Post Q r.1
      → Holds (arrive w (reply fault s r).1) × Post Q (reply fault s r).0
  reply_at Q delivered w s r steady p p' q = (Holds-arrive w _ steady p', q)
  reply_at Q refused w s r steady p p' q = (Holds-arrive w _ steady p, tt)
  reply_at Q unheard w s r steady p p' q = (Holds-arrive w _ steady p', tt)

  pub Ensures-query :
      {A : Type 0} {Q : A → Type 0} (stmt : Stmt A) → StmtKeeps Q stmt → Ensures Q (query stmt)
  unfolding query
  Ensures-query stmt keep = record {
    at = λ w h.
        let c = signal w in
        let s = c.others w.shared in
        let p = h.1 0 w.shared h.0 in
        let (p', q) = keep c.now c.uuid s p in
        reply_at _ c.fault w s (stmt c.now c.uuid s.db) h.1 p p' q;
  }

  -- The writes of a transaction keep the invariant.
  abbrev pub TxKeeps : Tx → Type 0
  TxKeeps tx = (s : Shared) → P s → P (with_db s (tx.writes s.db))

  begin_at : (fault : Fault) (now : Time) → Post {E = DbError} TxKeeps (begin_reply fault now)
  begin_at delivered now = λ s p. p
  begin_at refused now = tt
  begin_at unheard now = tt

  pub Ensures-begin : Ensures TxKeeps begin
  unfolding begin
  Ensures-begin = record {
    at = λ w h.
        (Holds-arrive w _ h.1 (h.1 0 w.shared h.0), begin_at (signal w).fault (signal w).now);
  }

  tx_reply_at :
      {A : Type 0} (fault : Fault) (r : Result DbError A) (tx : Tx)
      → TxKeeps tx
      → Post {E = DbError} (λ (a : A × Tx). TxKeeps a.1) (tx_reply fault r tx)
  tx_reply_at delivered (ok a) tx h = h
  tx_reply_at delivered (err e) tx h = tt
  tx_reply_at refused r tx h = tt
  tx_reply_at unheard r tx h = tt

  pub Ensures-tx_query :
      {A : Type 0} (stmt : Stmt A) (tx : Tx)
      → StmtKeeps (λ _. Unit {0}) stmt
      → TxKeeps tx
      → Ensures (λ (a : A × Tx). TxKeeps a.1) (tx_query stmt tx)
  unfolding tx_query
  Ensures-tx_query stmt tx keep h = record {
    at = λ w holds.
        let c = signal w in
        let s = c.others w.shared in
        let next : Tx = record tx { writes = λ db. (stmt tx.now c.uuid (tx.writes db)).0 } in
        (
          Holds-arrive w s holds.1 (holds.1 0 w.shared holds.0),
          tx_reply_at c.fault (stmt tx.now c.uuid (tx.writes s.db)).1 next
              (λ t p. (keep tx.now c.uuid (with_db t (tx.writes t.db)) (h t p)).0),
        );
  }

  pub Ensures-commit : (tx : Tx) → TxKeeps tx → Ensures (λ _. Unit {0}) (commit tx)
  unfolding commit
  Ensures-commit tx keep = record {
    at = λ w h.
        let c = signal w in
        let s = c.others w.shared in
        let p = h.1 0 w.shared h.0 in
        reply_at _ c.fault w s (tx.writes s.db, ok tt) h.1 p (keep s p) tt;
  }

  pub Ensures-try_send :
      {E : Type 0} (capacity : ℕ) (msg : JobMessage)
      → ((s : Shared) → P s → P (record s { channel = s.channel ++ msg ∷ [] }))
      → Ensures {E = E} (λ _. Unit {0}) (try_send capacity msg)
  unfolding try_send
  Ensures-try_send capacity msg keep = record {
    at = λ w h.
        let s = (signal w).others w.shared in
        let p = h.1 0 w.shared h.0 in
        elim (Bool-cases (ltb (length s.channel) capacity)) [
          | inl room ↦ rw room (Holds-arrive w _ h.1 (keep s p), tt)
          | inr full ↦ rw full (Holds-arrive w _ h.1 p, tt)
        ];
  }

  -- A statement on a transaction writes nothing that others can see.
  pub Ensures-tx_query_any :
      {A : Type 0} (stmt : Stmt A) (tx : Tx) → Ensures (λ (a : A × Tx). Unit {0}) (tx_query stmt tx)
  unfolding tx_query
  Ensures-tx_query_any stmt tx = record {
    at = λ w h. (Holds-arrive w _ h.1 (h.1 0 w.shared h.0), Post-unit (tx_query stmt tx w).0);
  }

  weaken_at :
      {E A : Type 0} {Q R : A → Type 0} (r : Result E A)
      → ((a : A) → Q a → R a)
      → Post Q r
      → Post R r
  weaken_at (ok a) f q = f a q
  weaken_at (err e) f q = tt

  pub Ensures-weaken :
      {E A : Type 0} {Q R : A → Type 0} {m : Exec E A}
      → ((a : A) → Q a → R a)
      → Ensures Q m
      → Ensures R m
  Ensures-weaken {m} f first = record {
    at = λ w h. let (h', q) = first.at w h in (h', weaken_at (m w).0 f q);
  }

  -- An action that only this process sees.
  pub Ensures-local :
      {E A : Type 0} (m : Exec E A)
      → ((w : World) → (m w).1.shared ≡ w.shared)
      → ((w : World) → (m w).1.outside ≡ w.outside)
      → Ensures (λ _. Unit {0}) m
  Ensures-local m same_shared same_outside = record {
    at = λ w h. (
      (
        subst P (sym (same_shared w)) h.0,
        subst (λ o. (n : ℕ) (s : Shared) → P s → P ((o n).others s)) (sym (same_outside w)) h.1,
      ),
      Post-unit (m w).0,
    );
  }
