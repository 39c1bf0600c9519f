-- ===== src/Transport/StreamBuffer/Drained.antt =====
-- On any input `extractJSON` ends with no complete text left, whatever comes in later.
use mcpwatch.Base.{◌≡◌, ◌≤◌, ap, ◌∙◌, none, [], ◌++◌, Bytes, length}
use mcpwatch.Transport.Cutter.{drain-IsDrained, drain-keep, length-drain-le}
use mcpwatch.Transport.Cutter.Tokens.{split, split-append}
use mcpwatch.Transport.StreamBuffer.{StreamBuffer, append, cut_json, json_cutter, extract_json}
use mcpwatch.Transport.StreamBuffer.Laws.{json_cutter-IsCutter}

-- On any bytes whatever the loop comes to an end with no complete text left in the buffer, so that
-- a second call finds nothing and leaves the buffer as it is. If more bytes come in between two
-- calls, the texts of the two calls together are those of one call on all of the bytes, and so is
-- the buffer.
pub extract_json-ends :
    (s : StreamBuffer) (more : Bytes)
    → let (ts, s') = extract_json s in
      let (us, s'') = extract_json (record { buf = s'.buf ++ more }) in
      (cut_json s'.buf ≡ none)
      × (extract_json s' ≡ ([], s'))
      × (length s'.buf ≤ length s.buf)
      × (extract_json (record { buf = s.buf ++ more }) ≡ (ts ++ us, s''))
unfolding extract_json
extract_json-ends s more =
    let law = json_cutter-IsCutter in
    let (drained, kept) = drain-IsDrained json_cutter append law s.buf [] in
    (
      drained,
      ap (λ x. (x.1, record { buf = x.0 }))
          (drain-keep json_cutter append law (split json_cutter s.buf).0 [] drained
            ∙ ap (λ b. (b, [])) kept),
      length-drain-le json_cutter append law s.buf [],
      ap (λ x. (x.1, record { buf = x.0 })) (split-append json_cutter law s.buf more),
    )
