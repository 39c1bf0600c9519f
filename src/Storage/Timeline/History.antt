-- ===== src/Storage/Timeline/History.antt =====
-- internal/storage/badger.go: `flush`, `Clear` and `New` as steps of an archive, which is what the
-- database and the counter of ids stand for.
pub mod Commits
pub mod Flushes
pub mod Steps
use mcpwatch.Base.{
  false, ℕ, ◌+◌, ◌≡◌, sym, ap, ◌∙◌, Option, none, some, List, [], ◌∷◌, All, length, arith,
}
use mcpwatch.Base.Float.{Float64}
use mcpwatch.Engine.Message.{Message}
use mcpwatch.Storage.Flush.{
  Badger, Stores, Accepts, CodesStats, Stats, Coding, Store, flush, stats_key, stats_in,
}
use mcpwatch.Storage.Lifecycle.{new_store, clear}
use mcpwatch.Storage.Query.{query_all}
use mcpwatch.Storage.Query.Order.{scan_all-decoded}
use mcpwatch.Storage.Timeline.{place_all, IsOrdered}
use mcpwatch.Storage.Timeline.Entries.{Iterates, decoded-Files}
use mcpwatch.Storage.Timeline.Batch.{Storable, stamped, Keeps, prefix, Used}

-- What changes the store: a batch, a deletion of all, and the end of the program with a new start. A
-- change is one step: two of them do not overlap.
pub data Change : Type 0 where
  flushes : List Message → Change
  clears reopens : Change

-- How many ids the changes may use.
abbrev pub ids : List Change → ℕ
ids [] = 0
ids (flushes batch ∷ cs) = length batch + ids cs
ids (_ ∷ cs) = ids cs

-- The ids given so far, the messages that the statistics count, and the messages in order.
pub record Archive : Type 0 where
  pub counter : ℕ
  pub total : ℕ
  pub messages : List Message

module _ (fl : Float64) (b : Badger) (coding : Coding fl) where
  open coding use {message_from}

  -- The same database, opened by `New`; if that fails the program ends.
  abbrev pub reopened_store : Store fl b coding → Store fl b coding
  reopened_store s = elim (new_store fl b coding (some s.db)) [ none ↦ s | some t ↦ t ]

  abbrev pub change : Change → Store fl b coding → Store fl b coding
  change (flushes batch) s = flush fl b coding batch s
  change clears s = (clear fl b coding s).0
  change reopens s = reopened_store s

  abbrev pub changes : List Change → Store fl b coding → Store fl b coding
  changes [] s = s
  changes (c ∷ cs) s = changes cs (change c s)

  -- Batches of messages that are dated and read back.
  abbrev pub StorableIn : Change → Type 0
  StorableIn (flushes batch) = All (Storable fl b coding) batch
  StorableIn _ = Unit

  -- What BadgerDB and encoding/json say.
  pub record Laws : Type 0 where
    pub stores : Stores b
    pub iterates : Iterates b
    pub codes_stats : CodesStats fl coding

  -- A batch is stored whole or not at all; the messages are all deleted or none is, and the ids
  -- begin anew in any case; a new start gives ids from the number of messages counted on. Nothing is
  -- refused by a database that refuses no call. Where the average is not finite the counts are lost.
  pub data Step : Archive → Change → Archive → Type 0 where
    stored :
        (a : Archive) (batch : List Message)
        → Step a (flushes batch) (record {
          counter = a.counter + length batch;
          total = a.total + length (stamped fl b coding a.counter batch);
          messages = place_all a.messages (stamped fl b coding a.counter batch);
        })
    stored_uncounted :
        (a : Archive) (batch : List Message) (average : fl.F)
        → fl.is_finite average ≡ false
        → Step a (flushes batch) (record {
          counter = a.counter + length batch;
          total = 0;
          messages = place_all a.messages (stamped fl b coding a.counter batch);
        })
    refused :
        (a : Archive) (c : ℕ) (batch : List Message)
        → (Accepts b → ⊥)
        → Used fl b coding a.counter batch c
        → Step a (flushes batch) (record a { counter = c })
    deleted : (a : Archive) → Step a clears (record { counter = 0; total = 0; messages = [] })
    not_deleted : (a : Archive) → (Accepts b → ⊥) → Step a clears (record a { counter = 0 })
    reopened : (a : Archive) → Step a reopens (record a { counter = a.total })
    not_reopened : (a : Archive) → (Accepts b → ⊥) → Step a reopens a

  pub data History : Archive → List Change → Archive → Type 0 where
    ended : (a : Archive) → History a [] a
    goes_on :
        {x : Change} {cs : List Change} (a a' a'' : Archive)
        → Step a x a'
        → History a' cs a''
        → History a (x ∷ cs) a''

  -- The number of messages that the statistics in a database count.
  abbrev pub total_in : b.D → ℕ
  total_in d = (stats_in fl b coding (b.get (stats_key fl b coding) d)).total_messages

  -- What a store stands for.
  abbrev pub archive : Store fl b coding → Archive
  archive s = record {
    counter = s.id_counter;
    total = total_in s.db;
    messages = query_all fl b coding s;
  }

  -- The entries of the database are those of the messages that `QueryAll` returns, in order.
  pub record IsKept (s : Store fl b coding) : Type 0 where
    pub keeps : Keeps fl b coding (query_all fl b coding s) s.db
    pub ordered : IsOrdered (query_all fl b coding s)

  -- A store that stands for an archive.
  pub record Shows (s : Store fl b coding) (a : Archive) : Type 0 where
    pub counter : s.id_counter ≡ a.counter
    pub total : total_in s.db ≡ a.total
    pub keeps : Keeps fl b coding a.messages s.db

  pub query_all-Keeps :
      (ms : List Message) (s : Store fl b coding)
      → Keeps fl b coding ms s.db
      → query_all fl b coding s ≡ ms
  unfolding query_all
  query_all-Keeps ms s keeps =
      scan_all-decoded message_from (b.pairs (prefix fl b coding) s.db) []
      ∙ decoded-Files message_from ms _ keeps

  pub archive-Shows : (s : Store fl b coding) (a : Archive) → Shows s a → archive s ≡ a
  archive-Shows s a x =
      ap {A = List Message}
        (λ ms. record { counter = s.id_counter; total = total_in s.db; messages = ms })
        (query_all-Keeps a.messages s x.keeps)
      ∙ ap {A = ℕ} (λ n. record { counter = s.id_counter; total = n; messages = a.messages })
          x.total
      ∙ ap {A = ℕ} (λ c. record { counter = c; total = a.total; messages = a.messages }) x.counter
