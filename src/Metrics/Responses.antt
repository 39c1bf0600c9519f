-- ===== src/Metrics/Responses.antt =====
-- What the counter of requests counts.
use mcpwatch.Base.{
  ◌≡◌, refl, Bool, true, false, ◌&&◌, not, some, List, [], ◌∷◌, Bytes, codes, eq_bytes, length,
  count, count-append, if◌then◌else◌, arith,
}
use mcpwatch.Base.Float.{Float64}
use mcpwatch.Engine.Message.{Message, is_response, is_error}
use mcpwatch.Metrics.{
  messages_total, requests_total, Update, inc, response_updates, record_metrics, recorded,
}

module _ (fl : Float64) where
  -- An increment of the counter of requests with this status.
  abbrev pub has_status : Bytes → Update fl → Bool
  has_status s (inc requests_total (method ∷ status ∷ [])) = eq_bytes status s
  has_status s _ = false

  -- An increment of the counter of messages.
  abbrev pub counts_message : Update fl → Bool
  counts_message (inc messages_total _) = true
  counts_message _ = false

  abbrev pub failed : Message → Bool
  failed m = is_response m.msg_type && is_error m

  abbrev pub succeeded : Message → Bool
  succeeded m = is_response m.msg_type && not (is_error m)

  count-record_metrics :
      (m : Message)
      → (count (has_status (codes "error")) (record_metrics fl (some m))
          ≡ (if failed m then 1 else 0))
        × (count (has_status (codes "success")) (record_metrics fl (some m))
            ≡ (if succeeded m then 1 else 0))
        × (count counts_message (record_metrics fl (some m)) ≡ 1)
  unfolding record_metrics response_updates eq_bytes
  count-record_metrics m = (ground arith, ground arith, ground arith)

  -- Over a list of messages the counter of requests is incremented with the status `error` once for
  -- each response that is an error, by the same test as for alerts, with `success` once for each
  -- other response, and the counter of messages once for each message.
  pub count-recorded :
      (ms : List Message)
      → (count (has_status (codes "error")) (recorded fl ms) ≡ count failed ms)
        × (count (has_status (codes "success")) (recorded fl ms) ≡ count succeeded ms)
        × (count counts_message (recorded fl ms) ≡ length ms)
  unfolding recorded
  count-recorded [] = (refl, refl, refl)
  count-recorded (m ∷ ms) =
      let (e, s, t) = count-record_metrics m in
      let (es, ss, ts) = count-recorded ms in
      (
        omega (
          arith,
          count-append (has_status (codes "error")) (record_metrics fl (some m)) (recorded fl ms),
          e,
          es,
        ),
        omega (
          arith,
          count-append (has_status (codes "success")) (record_metrics fl (some m)) (recorded fl ms),
          s,
          ss,
        ),
        omega (
          arith,
          count-append counts_message (record_metrics fl (some m)) (recorded fl ms),
          t,
          ts,
        ),
      )
