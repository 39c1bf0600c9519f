-- ===== src/Storage/Flush.antt =====
-- internal/storage/badger.go: the statistics and the transaction of `flush`. BadgerDB and the
-- encoding of what it holds are parameters. Counters of type int and int64 are two's complement
-- words: a sum is taken modulo 2 ^ 64.
pub mod Loops
pub mod Sums
pub mod Counts
use mcpwatch.Base.{
  true, false, ◌>>=◌, ℕ, ◌+◌, ◌*◌, ◌%◌, ◌^◌, ◌≡◌, ◌≢◌, Bool, ◌&&◌, Option, none, some, List, [],
  ◌∷◌, Bytes, codes, ltb, if◌then◌else◌,
}
use mcpwatch.Base.Int.{ℤ, pos, negsuc}
use mcpwatch.Base.Float.{Float64}
use mcpwatch.Engine.Message.{Message, is_request, has_error_data}
use mcpwatch.Storage.Key.{message_key, unix_nano}

abbrev pub word : ℕ
word = 2 ^ 64

-- `n > 0` on a word.
abbrev pub is_positive_word : ℕ → Bool
is_positive_word n = ltb 0 n && ltb n (2 ^ 63)

-- What `txn.Get` returns: a value, `ErrKeyNotFound`, or another error.
pub data Lookup : Type 0 where
  found : Bytes → Lookup
  not_found lookup_failed : Lookup

-- A database, and the view of a transaction on it; `none` is an error.
pub record Badger : Type 1 where
  pub D : Type 0
  -- `txn.Get`.
  pub get : Bytes → D → Lookup
  -- `txn.Set`, and `txn.SetEntry` with a time to live in hours.
  pub set : Bytes → Bytes → D → Option D
  pub set_entry : ℕ → Bytes → Bytes → D → Option D
  -- The end of `db.Update`: the database, and the view that is to take its place.
  pub commit : D → D → Option D
  pub drop_all : D → Option D
  -- The entries whose keys have a prefix, as an iterator visits them, forwards and in reverse.
  pub pairs : Bytes → D → List (Bytes × Bytes)
  pub pairs_reversed : Bytes → D → List (Bytes × Bytes)

-- What BadgerDB says of a key that was set or deleted with all others, and of a commit that
-- succeeds.
pub record Stores (b : Badger) : Type 0 where
  pub get-set : (k v : Bytes) (d d' : b.D) → b.set k v d ≡ some d' → b.get k d' ≡ found v
  pub get-drop_all : (k : Bytes) (d d' : b.D) → b.drop_all d ≡ some d' → b.get k d' ≡ not_found
  pub commit-view : (d v d' : b.D) → b.commit d v ≡ some d' → d' ≡ v

-- A database that refuses no call.
pub record Accepts (b : Badger) : Type 0 where
  pub gets : (k : Bytes) (d : b.D) → b.get k d ≢ lookup_failed
  pub sets : (k v : Bytes) (d : b.D) → b.set k v d ≢ none
  pub set_entries : (hours : ℕ) (k v : Bytes) (d : b.D) → b.set_entry hours k v d ≢ none
  pub commits : (d v : b.D) → b.commit d v ≢ none
  pub drops : (d : b.D) → b.drop_all d ≢ none

module _ (fl : Float64) where
  open fl use {F, of_int, plus, times, over, is_finite}

  pub record Stats : Type 0 where
    pub total_messages : ℕ
    pub total_requests : ℕ
    pub total_errors : ℕ
    pub avg_latency_ms : F
    pub total_bytes : ℕ
    pub total_tokens : ℕ

  -- encoding/json on statistics and messages. Decoding statistics leaves what could be read, and says
  -- whether it succeeded; encoding them leaves no bytes where it fails, since the program ignores that
  -- error.
  pub record Coding : Type 0 where
    pub stats_bytes : Stats → Bytes
    pub stats_of : Bytes → Stats
    pub stats_valid : Bytes → Bool
    pub message_bytes : Message → Option Bytes
    pub message_from : Bytes → Option Message

  -- `Stats{}`.
  abbrev pub no_stats : Stats
  no_stats = record {
    total_messages = 0;
    total_requests = 0;
    total_errors = 0;
    avg_latency_ms = of_int 0;
    total_bytes = 0;
    total_tokens = 0;
  }

  -- What encoding/json says of statistics: those with a finite average are read back as they were;
  -- else no bytes are written, which do not decode.
  pub record CodesStats (coding : Coding) : Type 0 where
    pub back :
        (t : Stats)
        → is_finite t.avg_latency_ms ≡ true
        → (coding.stats_of (coding.stats_bytes t) ≡ t)
          × (coding.stats_valid (coding.stats_bytes t) ≡ true)
    pub lost :
        (t : Stats)
        → is_finite t.avg_latency_ms ≡ false
        → (coding.stats_of (coding.stats_bytes t) ≡ no_stats)
          × (coding.stats_valid (coding.stats_bytes t) ≡ false)

  -- The sums that a message adds to.
  unfoldable pub count_stats : Message → Stats → Stats
  count_stats m s = record s {
    total_messages = (s.total_messages + 1) % word;
    total_requests =
        if is_request m.msg_type then (s.total_requests + 1) % word else s.total_requests;
    total_errors =
        if has_error_data m.error_data then (s.total_errors + 1) % word else s.total_errors;
    total_bytes = (s.total_bytes + m.size_bytes) % word;
    total_tokens = (s.total_tokens + m.token_estimate) % word;
  }

  -- `if msg.LatencyMS > 0 { totalLatencyMS += … }`.
  unfoldable pub add_latency : ℤ → F → F
  add_latency (pos n) total = if ltb 0 n then plus total (of_int n) else total
  add_latency (negsuc n) total = total

  -- The sum of latencies that the average stands for.
  unfoldable pub latency_total : Stats → F
  latency_total s =
      if is_positive_word s.total_messages
      then times s.avg_latency_ms (of_int s.total_messages)
      else of_int 0

  unfoldable pub with_average : F → Stats → Stats
  with_average total s =
      if is_positive_word s.total_messages
      then record s { avg_latency_ms = over total (of_int s.total_messages) }
      else s

  module _ (b : Badger) (coding : Coding) where
    open b use {D, get, set, set_entry, commit, drop_all}
    open coding use {stats_bytes, stats_of, message_bytes}

    abbrev pub stats_key : Bytes
    stats_key = codes "stats"

    pub record Store : Type 0 where
      pub db : D
      pub id_counter : ℕ

    -- The variables of the transaction.
    pub record Flushing : Type 0 where
      pub stats : Stats
      pub total_latency : F
      pub counter : ℕ
      pub view : D

    -- The loop goes on, or has returned an error; the counter of ids keeps its value then.
    pub data Loop : Type 0 where
      going : Flushing → Loop
      broken : ℕ → Loop

    abbrev pub next_id : ℕ → ℕ
    next_id c = (c + 1) % word

    -- `msg.ID = int64(msgID)`.
    abbrev pub with_id : ℕ → Message → Message
    with_id n m = record m { id = n }

    -- What a message does to the transaction, once its bytes are set or not.
    unfoldable pub counted : Message → Flushing → Option D → Loop
    unfolding count_stats add_latency
    counted m f none = broken (next_id f.counter)
    counted m f (some view) = going (record {
      stats = count_stats m f.stats;
      total_latency = add_latency m.latency_ms f.total_latency;
      counter = next_id f.counter;
      view = view;
    })

    unfoldable pub put_message : Message → Option Bytes → Flushing → Loop
    unfolding counted
    put_message m none f = going (record f { counter = next_id f.counter })
    put_message m (some val) f =
        counted m f
          (set_entry 24 (message_key (unix_nano m.timestamp) (next_id f.counter)) val f.view)

    -- The loop over the batch.
    unfoldable pub flush_loop : List Message → Loop → Loop
    unfolding put_message
    flush_loop [] l = l
    flush_loop (m ∷ ms) (going f) =
        flush_loop ms (put_message m (message_bytes (with_id (next_id f.counter) m)) f)
    flush_loop (m ∷ ms) (broken c) = broken c

    -- The statistics that the transaction starts from.
    abbrev pub stats_in : Lookup → Stats
    stats_in (found v) = stats_of v
    stats_in _ = no_stats

    unfoldable pub begin_flush : Store → Flushing
    unfolding latency_total
    begin_flush s =
        let stats = stats_in (get stats_key s.db) in
        record {
          stats = stats;
          total_latency = latency_total stats;
          counter = s.id_counter;
          view = s.db;
        }

    -- The end of the transaction: the statistics are set and the view is committed.
    unfoldable pub end_flush : Loop → D → Option D
    unfolding with_average
    end_flush (broken c) db = none
    end_flush (going f) db = do
      view ← set stats_key (stats_bytes (with_average f.total_latency f.stats)) f.view
      commit db view

    abbrev pub counter_of : Loop → ℕ
    counter_of (going f) = f.counter
    counter_of (broken c) = c

    abbrev pub or_else : Option D → D → D
    or_else none d = d
    or_else (some d') d = d'

    -- `flush`: where the transaction fails the database stays, and the ids are used up.
    unfoldable pub flush : List Message → Store → Store
    unfolding begin_flush end_flush flush_loop
    flush batch s =
        let l = flush_loop batch (going (begin_flush s)) in
        record { db = or_else (end_flush l s.db) s.db; id_counter = counter_of l }
