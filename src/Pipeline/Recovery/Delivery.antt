-- ===== src/Pipeline/Recovery/Delivery.antt =====
-- What one tick of internal/pipeline/recovery.go puts into the channel.
use ping_goat.Common.{List, [], filter, if◌then◌else◌, length, ltb, take, ℕ, ◌++◌, ◌-◌, ◌∷◌, ◌≡◌}
use ping_goat.Database.{Job}
use ping_goat.Database.Jobs.{RowOrder, is_queued}
use ping_goat.Session.{Shared, World}
use ping_goat.Pipeline.Message.{JobMessage}

-- Nobody else acts.
abbrev pub IsAlone : World → Type 0
IsAlone w = (n : ℕ) (s : Shared) → (w.outside n).others s ≡ s

-- The messages that still fit into the channel.
abbrev pub fill : ℕ → List JobMessage → List JobMessage → List JobMessage
fill capacity channel msgs = channel ++ take (capacity - length channel) msgs

with_channel : Shared → List JobMessage → Shared
with_channel s channel = record s { channel = channel }

-- One send that does not wait.
offer : ℕ → JobMessage → Shared → Shared
offer capacity msg s =
    if ltb (length s.channel) capacity then with_channel s (s.channel ++ msg ∷ []) else s

pending_of : RowOrder → Shared → List Job
pending_of order s = take 50 (order.oldest_first (filter is_queued s.db.jobs))
