-- ===== src/Storage/Sample.antt =====
-- A database, an encoding and messages to run the store on.
use mcpwatch.Base.{
  true, ◌≢◌, Bool-cases, inl, inr, some_inj, ℕ, ◌+◌, ◌*◌, ◌/◌, ◌≡◌, refl, sym, ap, ◌∙◌,
  eq_bytes_refl, Option, none, some, List, [], ◌∷◌, reverse, Bytes, codes, eq_bytes, has_prefix,
  ltb, if◌then◌else◌,
}
use mcpwatch.Base.Int.{pos}
use mcpwatch.Base.Float.{Float64}
use mcpwatch.Engine.Message.{request, response, Message}
use mcpwatch.Storage.Flush.{
  Lookup, found, not_found, Badger, Accepts, lookup_failed, Stores, Stats, Coding, CodesStats,
  no_stats, Store,
}
use mcpwatch.Storage.Query.{query_all, scan_all}
use mcpwatch.Storage.Timeline.History.{Laws, IsKept}
use mcpwatch.Storage.Timeline.Entries.{put, Iterates}

abbrev pub ask : Message
ask = record {
  id = 0;
  timestamp = 63_000_000_000_000_000_000;
  transport = codes "stdio";
  direction = codes "IN";
  msg_type = request;
  method = codes "tools/list";
  jsonrpc_id = codes "1";
  params = [];
  result = [];
  error_data = [];
  latency_ms = pos 0;
  size_bytes = 40;
  token_estimate = 10;
  error_code = [];
  raw = [];
}

abbrev pub answer : Message
answer = record ask {
  msg_type = response;
  error_data = codes "{}";
  latency_ms = pos 8;
  size_bytes = 60;
  token_estimate = 15;
}

abbrev pub whole : Float64
whole = record {
  F = ℕ;
  of_int = λ n. n;
  plus = λ a b. a + b;
  times = λ a b. a * b;
  over = λ a b. a / b;
  greater = λ a b. ltb b a;
  is_finite = λ _. true;
}

-- A database as a list of entries, the latest first.
unfoldable pub lookup : Bytes → List (Bytes × Bytes) → Lookup
lookup key [] = not_found
lookup key ((k, v) ∷ d) = if eq_bytes k key then found v else lookup key d

unfoldable pub entries : List (Bytes × Bytes) → Bytes → List (Bytes × Bytes)
entries [] prefix = []
entries ((k, v) ∷ d) prefix =
    let rest = entries d prefix in if has_prefix prefix k then put k v rest else rest

abbrev pub database : Badger
database = record {
  D = List (Bytes × Bytes);
  get = lookup;
  set = λ k v d. some ((k, v) ∷ d);
  set_entry = λ _ k v d. some ((k, v) ∷ d);
  commit = λ _ v. some v;
  drop_all = λ _. some [];
  pairs = λ prefix d. entries d prefix;
  pairs_reversed = λ prefix d. reverse (entries d prefix);
}

pub lookup-set : (k v : Bytes) (d : List (Bytes × Bytes)) → lookup k ((k, v) ∷ d) ≡ found v
unfolding lookup
lookup-set k v d = rw (eq_bytes_refl k)

pub database-Stores : Stores database
unfolding lookup
database-Stores = record {
  get-set = λ k v d d' e. ap (lookup k) (sym (some_inj _ _ e)) ∙ lookup-set k v d;
  get-drop_all = λ k d d' e. ap (lookup k) (sym (some_inj _ _ e));
  commit-view = λ d v d' e. sym (some_inj _ _ e);
}

pub database-Iterates : Iterates database
unfolding entries
database-Iterates = record {
  pairs-set = λ p k v d d' e. ap (λ x. entries x p) (sym (some_inj _ _ e));
  pairs-set_entry = λ hours p k v d d' e. ap (λ x. entries x p) (sym (some_inj _ _ e));
  pairs-drop_all = λ p d d' e. ap (λ x. entries x p) (sym (some_inj _ _ e));
}

unfoldable pub stats_from : Bytes → Stats whole
stats_from (a ∷ b ∷ c ∷ d ∷ e ∷ f ∷ _) = record {
  total_messages = a;
  total_requests = b;
  total_errors = c;
  avg_latency_ms = d;
  total_bytes = e;
  total_tokens = f;
}
stats_from _ = no_stats whole

abbrev pub message_of : Bytes → Option Message
message_of (n ∷ t ∷ id) = some (record ask { id = n; timestamp = t; jsonrpc_id = id })
message_of _ = none

lookup-ne-failed : (k : Bytes) (d : List (Bytes × Bytes)) → lookup k d ≢ lookup_failed
unfolding lookup
lookup-ne-failed k [] e = cc
lookup-ne-failed k ((q, v) ∷ d) e = elim (Bool-cases (eq_bytes q k)) [
  | inl h ↦ let found_here = rw h at e in cc
  | inr h ↦ lookup-ne-failed k d (rw h at e)
]

pub database-Accepts : Accepts database
database-Accepts = record {
  gets = lookup-ne-failed;
  sets = λ k v d e. cc;
  set_entries = λ hours k v d e. cc;
  commits = λ d v e. cc;
  drops = λ d e. cc;
}

abbrev pub coding : Coding whole
coding = record {
  stats_bytes = λ s.
      s.total_messages ∷ s.total_requests ∷ s.total_errors ∷ s.avg_latency_ms ∷ s.total_bytes
      ∷ s.total_tokens ∷ [];
  stats_of = stats_from;
  stats_valid = λ v. true;
  message_bytes = λ m. some (m.id ∷ m.timestamp ∷ m.jsonrpc_id);
  message_from = message_of;
}

abbrev pub store : Store whole database coding
store = record { db = []; id_counter = 0 }

pub whole-CodesStats : CodesStats whole coding
unfolding stats_from
whole-CodesStats = record { back = λ t e. (refl, refl); lost = λ t e. absurd cc }

pub laws : Laws whole database coding
unfolding stats_from
laws = record {
  stores = database-Stores;
  iterates = database-Iterates;
  codes_stats = whole-CodesStats;
}

pub store-IsKept : IsKept whole database coding store
unfolding query_all scan_all entries
store-IsKept = record { keeps = tt; ordered = tt }
