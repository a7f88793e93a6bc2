-- ===== src/Session.antt =====
-- How the code of internal/ meets the server's state: the tables, and the buffered channel `jobCh`
-- of cmd/api/main.go. Other goroutines and other clients of the database act between any two calls;
-- a call of the database can fail before it takes effect, or have its effect and its reply lost.
-- What they do, and how each call fares, is an infinite list of signals that no code chooses.
pub mod Keeps
pub mod Frames
pub mod Calm
pub mod Guards
pub mod Protocol
use ping_goat.Common.{
  Bool, GoString, List, Result, [], err, false, if◌then◌else◌, length, ltb, ok, suc, true, ℕ, ◌++◌,
  ◌∷◌,
}
use ping_goat.Database.{Uuid, Time, Db, DbError, other_error, Stmt}
use ping_goat.Pipeline.Message.{JobMessage}

pub record Shared : Type 0 where
  pub db : Db
  pub channel : List JobMessage

pub data Fault : Type 0 where
  -- The statement runs and its reply arrives.
  delivered : Fault
  -- The statement does not run, and the caller gets an error.
  refused : Fault
  -- The statement runs, and the caller gets an error all the same.
  unheard : Fault

-- What is outside of the code's hands at one call.
pub record Signal : Type 0 where
  -- What all others have done since the call before.
  pub others : Shared → Shared
  pub fault : Fault
  pub now : Time
  pub uuid : Uuid

pub record World : Type 0 where
  pub shared : Shared
  pub outside : ℕ → Signal
  -- The temporary directories of this process that exist.
  pub temp_dirs : List GoString

-- An action ends with a value or an early return.
abbrev pub Exec : Type 0 → Type 0 → Type 0
Exec E A = World → Result E A × World

abbrev pub pure : {E A : Type 0} → A → Exec E A
pure a w = (ok a, w)

abbrev pub raise : {E A : Type 0} → E → Exec E A
raise e w = (err e, w)

infixl 5 ◌>>=◌ ◌>>◌
abbrev pub ◌>>=◌ : {E A B : Type 0} → Exec E A → (A → Exec E B) → Exec E B
◌>>=◌ m f w = let (r, w') = m w in elim r [ ok a ↦ f a w' | err e ↦ (err e, w') ]

abbrev pub ◌>>◌ : {E B : Type 0} → Exec E (Unit {0}) → Exec E B → Exec E B
m >> k = m >>= λ _. k

-- `if !test { return e }`
abbrev pub require : {E : Type 0} → Bool → E → Exec E (Unit {0})
require true e = pure tt
require false e = raise e

-- `if err != nil { return … }`
abbrev pub or_else : {E F A : Type 0} → Exec F A → (F → E) → Exec E A
or_else m f w = let (r, w') = m w in elim r [ ok a ↦ (ok a, w') | err e ↦ (err (f e), w') ]

-- The signal of this call, after which the others' work is in place.
abbrev pub signal : World → Signal
signal w = w.outside 0

abbrev pub arrive : World → Shared → World
arrive w s = record w { shared = s; outside = λ n. w.outside (suc n) }

abbrev pub with_db : Shared → Db → Shared
with_db s db = record s { db = db }

abbrev pub reply : {A : Type 0} → Fault → Shared → Db × Result DbError A → Result DbError A × Shared
reply delivered s (db, r) = (r, with_db s db)
reply refused s (db, r) = (err other_error, s)
reply unheard s (db, r) = (err other_error, with_db s db)

-- A statement on the pool, in a transaction of its own.
unfoldable pub query : {A : Type 0} → Stmt A → Exec DbError A
query stmt w =
    let c = signal w in
    let s = c.others w.shared in
    let (r, s') = reply c.fault s (stmt c.now c.uuid s.db) in (r, arrive w s')

-- An open transaction: its time, which `now()` is in all its statements, and what its writes make of
-- the committed tables.
pub record Tx : Type 0 where
  pub now : Time
  pub writes : Db → Db

abbrev pub begin_reply : Fault → Time → Result DbError Tx
begin_reply delivered now = ok (record { now = now; writes = λ db. db })
begin_reply _ now = err other_error

-- `pool.Begin`
unfoldable pub begin : Exec DbError Tx
begin w = let c = signal w in (begin_reply c.fault c.now, arrive w (c.others w.shared))

abbrev pub tx_reply : {A : Type 0} → Fault → Result DbError A → Tx → Result DbError (A × Tx)
tx_reply delivered (ok a) tx = ok (a, tx)
tx_reply delivered (err e) tx = err e
tx_reply _ r tx = err other_error

-- A statement on the transaction: it sees its own writes on what the others have committed. No other
-- session sees the write.
unfoldable pub tx_query : {A : Type 0} → Stmt A → Tx → Exec DbError (A × Tx)
tx_query stmt tx w =
    let c = signal w in
    let s = c.others w.shared in
    let next : Tx = record tx { writes = λ db. (stmt tx.now c.uuid (tx.writes db)).0 } in
    (tx_reply c.fault (stmt tx.now c.uuid (tx.writes s.db)).1 next, arrive w s)

-- `tx.Commit`. A transaction that is not committed is rolled back: its writes reach nobody.
unfoldable pub commit : Tx → Exec DbError (Unit {0})
commit tx w =
    let c = signal w in
    let s = c.others w.shared in
    let (r, s') = reply c.fault s (tx.writes s.db, ok tt) in (r, arrive w s')

-- `select { case jobs <- msg: default: }` on a channel of the given capacity: whether it was sent.
unfoldable pub try_send : {E : Type 0} → ℕ → JobMessage → Exec E Bool
try_send capacity msg w =
    let s = (signal w).others w.shared in
    if ltb (length s.channel) capacity
    then (ok true, arrive w (record s { channel = s.channel ++ msg ∷ [] }))
    else (ok false, arrive w s)
