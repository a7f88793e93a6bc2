-- ===== src/Session/Calm.antt =====
-- How the calls fare when all succeed and nobody else acts.
use ping_goat.Common.{
  Bool, Result, [], ap, false, if◌then◌else◌, length, ltb, ok, suc, true, ℕ, ◌++◌, ◌∙◌, ◌∷◌, ◌≡◌,
}
use ping_goat.Database.{Stmt, Db, DbError}
use ping_goat.Pipeline.Message.{JobMessage}
use ping_goat.Session.{
  try_send, Shared, Tx, World, arrive, begin, begin_reply, commit, delivered, query, reply, signal,
  tx_query, tx_reply, with_db,
}

abbrev pub IsCalm : World → Type 0
IsCalm w = (n : ℕ) → ((s : Shared) → (w.outside n).others s ≡ s) × ((w.outside n).fault ≡ delivered)

pub IsCalm-arrive : (w : World) (s : Shared) → IsCalm w → IsCalm (arrive w s)
IsCalm-arrive w s calm n = calm (suc n)

pub begin_calm :
    (w : World)
    → IsCalm w
    → begin w ≡ (ok (record { now = (signal w).now; writes = λ db. db }), arrive w w.shared)
unfolding begin
begin_calm w calm =
    ap (λ s. (begin_reply (signal w).fault (signal w).now, arrive w s)) ((calm 0).0 w.shared)
    ∙ ap (λ f. (begin_reply f (signal w).now, arrive w w.shared)) (calm 0).1

-- The transaction behind a statement.
abbrev pub after_stmt : {A : Type 0} → Stmt A → Tx → World → Tx
after_stmt stmt tx w = record tx { writes = λ db. (stmt tx.now (signal w).uuid (tx.writes db)).0 }

pub tx_query_calm :
    {A : Type 0} (stmt : Stmt A) (tx : Tx) (w : World) (a : A)
    → IsCalm w
    → (stmt tx.now (signal w).uuid (tx.writes w.shared.db)).1 ≡ ok a
    → tx_query stmt tx w ≡ (ok (a, after_stmt stmt tx w), arrive w w.shared)
unfolding tx_query
tx_query_calm stmt tx w a calm e =
    let next = after_stmt stmt tx w in
    ap
      (λ (s : Shared). (
        tx_reply (signal w).fault (stmt tx.now (signal w).uuid (tx.writes s.db)).1 next,
        arrive w s,
      ))
      ((calm 0).0 w.shared)
    ∙ ap
        (λ f. (
          tx_reply f (stmt tx.now (signal w).uuid (tx.writes w.shared.db)).1 next,
          arrive w w.shared,
        ))
        (calm 0).1
    ∙ ap (λ r. (tx_reply delivered r next, arrive w w.shared)) e

pub commit_calm :
    (tx : Tx) (w : World)
    → IsCalm w
    → commit tx w ≡ (ok tt, arrive w (with_db w.shared (tx.writes w.shared.db)))
unfolding commit
commit_calm tx w calm =
    ap
      (λ (s : Shared).
        let (r, s') = reply (signal w).fault s (tx.writes s.db, ok tt) in (r, arrive w s'))
      ((calm 0).0 w.shared)
    ∙ ap (λ f. let (r, s') = reply f w.shared (tx.writes w.shared.db, ok tt) in (r, arrive w s'))
        (calm 0).1

-- A statement on the pool.
pub query_calm :
    {A : Type 0} (stmt : Stmt A) (w : World) (db : Db) (r : Result DbError A)
    → IsCalm w
    → stmt (signal w).now (signal w).uuid w.shared.db ≡ (db, r)
    → query stmt w ≡ (r, arrive w (with_db w.shared db))
unfolding query
query_calm stmt w db r calm e =
    ap
      (λ (s : Shared).
        let (r, s') = reply (signal w).fault s (stmt (signal w).now (signal w).uuid s.db) in
        (r, arrive w s'))
      ((calm 0).0 w.shared)
    ∙ ap
        (λ f.
          let (r, s') = reply f w.shared (stmt (signal w).now (signal w).uuid w.shared.db) in
          (r, arrive w s'))
        (calm 0).1
    ∙ ap (λ p. let (r, s') = reply delivered w.shared p in (r, arrive w s')) e

-- The same, whatever the others have done before.
pub query_delivered :
    {A : Type 0} (stmt : Stmt A) (w : World)
    → (signal w).fault ≡ delivered
    → let s = (signal w).others w.shared in
      let (db, r) = stmt (signal w).now (signal w).uuid s.db in
      query stmt w ≡ (r, arrive w (with_db s db))
unfolding query
query_delivered stmt w runs =
    let s = (signal w).others w.shared in
    ap (λ f. let (r, s') = reply f s (stmt (signal w).now (signal w).uuid s.db) in (r, arrive w s'))
      runs

-- A send to a channel that has a place.
pub try_send_calm :
    {E : Type 0} (capacity : ℕ) (msg : JobMessage) (w : World)
    → IsCalm w
    → ltb (length w.shared.channel) capacity ≡ true
    → try_send {E = E} capacity msg w
      ≡ (ok true, arrive w (record w.shared { channel = w.shared.channel ++ msg ∷ [] }))
unfolding try_send
try_send_calm {E} capacity msg w calm place =
    let sent : Shared → Result E Bool × World =
      λ s. (ok true, arrive w (record s { channel = s.channel ++ msg ∷ [] })) in
    let kept : Shared → Result E Bool × World = λ s. (ok false, arrive w s) in
    ap (λ (s : Shared). if ltb (length s.channel) capacity then sent s else kept s)
      ((calm 0).0 w.shared)
    ∙ ap (λ b. if b then sent w.shared else kept w.shared) place
