-- ===== src/Transport/Tests/Copies.antt =====
-- The theorems on whole connections, round trips and attachments at concrete inputs.
use mcpwatch.Base.{
  Bytes, length, ℕ, ◌<◌, ◌≤◌, ◌≡◌, ◌⊎◌, refl, true, false, List, none, [], ◌∷◌, ◌++◌, codes, foldl,
  All, arith,
}
use mcpwatch.Transport.Cutter.{joined, drain, drain_from}
use mcpwatch.Transport.Defer.{opens, closes}
use mcpwatch.Transport.Defer.Scopes.{Unwinds}
use mcpwatch.Transport.Ebpf.{closed, new_streams, running, listen}
use mcpwatch.Transport.Ebpf.Attach.{attach, attached, refused, start_ebpf}
use mcpwatch.Transport.Ebpf.Attach.Released.{Granted, attached_calls, attach-Unwinds}
use mcpwatch.Transport.Proxy.{body_line, proxy_type, read_all}
use mcpwatch.Transport.Proxy.Laws.{chunks}
use mcpwatch.Transport.Proxy.RoundTrip.{interceptor_of, reads, results}
use mcpwatch.Transport.Proxy.RoundTrip.Body.{reads-lines}
use mcpwatch.Transport.Socket.Connection.{
  Copied, from_client, from_target, client_conn, target_conn, handle_connection,
}
use mcpwatch.Transport.Socket.Connection.Merges.{Sent, Merge}
use mcpwatch.Transport.Socket.Connection.Interleaves.{handle_sent, handle_connection-Merge}
use mcpwatch.Transport.Lines.{index_byte, cut_line}
use mcpwatch.Transport.Lines.Parts.{NoLineBelow}
use mcpwatch.Transport.Stdio.{stdin_line}
use mcpwatch.Transport.Stdio.Tee.{InRoom, tee_read, new_tee, tee_all}
use mcpwatch.Transport.Stdio.Tee.Reads.{stands}
use mcpwatch.Transport.Stdio.Tee.Copies.{tee_all-copies}
use mcpwatch.Transport.Stdio.Session.{
  Stream, input, output, StreamEvent, reads_bytes, ends, new_session, session_run,
}
use mcpwatch.Transport.Stdio.Session.Alone
use mcpwatch.Transport.Stdio.Session.Alone.{EachAlone, session_run-EachAlone}
use mcpwatch.Transport.StreamBuffer.{strip_return, cut_json, extract_json}
use mcpwatch.Transport.StreamBuffer.Drained.{extract_json-ends}
use mcpwatch.Transport.Tests.{parser, wire, took, lines_apart}

attach-Unwinds_example :
    Unwinds [] (attach (λ s. true)).calls
    × ((Granted (λ s. true)
          × (start_ebpf parser (λ s. true) (closed ∷ []) wire
              ≡ attached (listen parser (closed ∷ []) (running new_streams wire)))
          × ((attach (λ s. true)).calls ≡ attached_calls))
        ⊎ ((Granted (λ s. true) → ⊥)
            × ((text : Bytes) × (start_ebpf parser (λ s. true) (closed ∷ []) wire ≡ refused text))))
attach-Unwinds_example = attach-Unwinds parser (λ s. true) (closed ∷ []) wire

abbrev slices : List ℕ
slices = 3 ∷ 3 ∷ 3 ∷ 3 ∷ 3 ∷ 3 ∷ 3 ∷ []

slices-Positive : All (λ n. 0 < n) slices
slices-Positive = ground arith

-- Two lines and an unfinished one, read in slices of three bytes.
reads-lines_example :
    let s = interceptor_of (codes "IN") in
    let body = codes "ab\nc\nd" in
    let handle = body_line parser (codes "IN") proxy_type in
    (joined (chunks (results (body_line parser) (reads slices body) s wire)) ≡ body)
    × (read_all (body_line parser) (reads slices body) s wire
        ≡ (s, handle (codes "d") (handle (codes "c") (handle (codes "ab") wire))))
reads-lines_example =
    reads-lines parser slices (codes "ab\nc\nd") wire (codes "ab" ∷ codes "c" ∷ []) (codes "d")
      slices-Positive (omega arith) (omega arith) refl (lines_apart.0, (lines_apart.1.0, tt))
      lines_apart.1.1

-- The client's line comes in two calls, with a call of the target between them.
abbrev both : List Copied
both =
    from_client (codes "ab") (took 2)
    ∷ from_target (codes "c\nd") (took 3)
    ∷ from_client (codes "\nd") (took 2)
    ∷ []

handle_connection-Merge_example :
    ((zs : List Sent) × Merge (codes "ab" ∷ []) (codes "c" ∷ []) zs
      × ((handle_connection parser true both wire).1 ≡ foldl (handle_sent parser) wire zs))
    × ((handle_connection parser false both wire).1 ≡ wire)
    × ((handle_connection parser true both wire).0
        ≡ opens target_conn ∷ closes target_conn ∷ closes client_conn ∷ [])
    × ((handle_connection parser false both wire).0 ≡ closes client_conn ∷ [])
handle_connection-Merge_example =
    handle_connection-Merge parser both wire (codes "ab" ∷ []) (codes "c" ∷ []) (codes "d")
      (codes "d") refl refl (lines_apart.0, tt) lines_apart.1.1 (lines_apart.1.0, tt)
      lines_apart.1.1

-- Two arrays, of which the second is complete only with the bytes that come later.
extract_json-ends_example :
    let (ts, s') = extract_json (record { buf = codes "x[1] [" }) in
    let (us, s'') = extract_json (record { buf = s'.buf ++ codes "2]y" }) in
    (cut_json s'.buf ≡ none)
    × (extract_json s' ≡ ([], s'))
    × (length s'.buf ≤ 6)
    × (extract_json (record { buf = codes "x[1] [2]y" }) ≡ (ts ++ us, s''))
extract_json-ends_example = extract_json-ends (record { buf = codes "x[1] [" }) (codes "2]y")

-- A buffer of four bytes, and a line of five behind one that fits.
long_tail : NoLineBelow 4 (codes "cdefg\nh")
unfolding index_byte
long_tail i e = ground arith

room : InRoom 4 (stdin_line parser) (codes "ab\n" ∷ codes "cdef" ∷ codes "g\nh" ∷ []) (new_tee wire)
unfolding tee_read drain drain_from cut_line index_byte
room = (λ e. omega arith, (λ e. omega arith, (λ e. absurd cc, tt)))

tee_all-copies_example :
    tee_all 4 (stdin_line parser) (codes "ab\n" ∷ codes "cdef" ∷ codes "g\nh" ∷ []) (new_tee wire)
    ≡ stands 4
        (stdin_line parser)
        (codes "cdef")
        true
        (codes "ab\ncdef")
        (stdin_line parser (codes "ab") wire)
unfolding strip_return
tee_all-copies_example =
    tee_all-copies 4 (stdin_line parser) (codes "ab\n" ∷ codes "cdef" ∷ codes "g\nh" ∷ []) wire
      (codes "ab" ∷ []) (codes "cdefg\nh") (omega arith) room refl (lines_apart.0, tt)
      (omega arith, tt) long_tail

-- A line of the client in two reads, with an answer between them.
abbrev session_events : List (Stream × StreamEvent)
session_events =
    (input, reads_bytes (codes "ab"))
    ∷ (output, reads_bytes (codes "c\n"))
    ∷ (input, reads_bytes (codes "\n"))
    ∷ (input, ends)
    ∷ []

session_run-EachAlone_example :
    (zs : List (Stream × Bytes)) × ((session_run parser session_events (new_session wire)).wire
      ≡ foldl (Alone.handle_sent parser) wire zs)
    × EachAlone parser session_events
        (new_session wire)
        (session_run parser session_events (new_session wire))
        zs
session_run-EachAlone_example = session_run-EachAlone parser session_events (new_session wire)
