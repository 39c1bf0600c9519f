-- ===== src/Transport/Socket/Connection/Interleaves.antt =====
-- Two directions at once: what one connection delivers, and what it closes.
use mcpwatch.Base.{
  ◌≡◌, refl, sym, ap, ◌∙◌, true, false, List, [], ◌∷◌, ◌++◌, map, foldl, append_assoc, append-nil,
  foldl-append, Bytes, codes, take, All, is_empty, if◌then◌else◌,
}
use mcpwatch.Engine.Parser.{Parser}
use mcpwatch.Transport.Cutter.{joined}
use mcpwatch.Transport.Cutter.Tokens.{drain-split, split-append}
use mcpwatch.Transport.Lines.{
  line_cutter, line_cutter-IsCutter, split_lines, split_lines-unlines, unlines, IsLine,
  IsLine-drain,
}
use mcpwatch.Transport.Socket.{SocketInterceptor, WriteResult, socket_type, socket_line}
use mcpwatch.Transport.Socket.Laws.{taken, write-drain}
use mcpwatch.Transport.Socket.Connection.{
  client_conn, target_conn, Writers, new_writers, Copied, from_client, from_target, copy, copies,
  handle_connection,
}
use mcpwatch.Transport.Socket.Connection.Merges.{
  Sent, by_client, by_target, Merge, done, client_first, target_first,
}
use mcpwatch.Transport.Lines.Unlines.{nil-IsLine}
use mcpwatch.Transport.Defer.{opens, closes, run_steps}
use mcpwatch.Transport.Wire.{Wire, deliver}
use mcpwatch.Transport.Space.{trim_space}

IsLine-split_lines : (a : Bytes) → IsLine (split_lines a).0
IsLine-split_lines a = IsLine-drain _ a []

-- What the connections took of the copies of one side.
abbrev pub by_clients : List Copied → List (Bytes × WriteResult)
by_clients [] = []
by_clients (from_client p r ∷ cs) = (p, r) ∷ by_clients cs
by_clients (from_target p r ∷ cs) = by_clients cs

abbrev pub by_targets : List Copied → List (Bytes × WriteResult)
by_targets [] = []
by_targets (from_client p r ∷ cs) = by_targets cs
by_targets (from_target p r ∷ cs) = (p, r) ∷ by_targets cs

abbrev writer : Bytes → Bytes → SocketInterceptor
writer direction b = record { trans_type = socket_type; direction = direction; buf = b }

-- The writers with these buffers.
abbrev pub holding : Bytes → Bytes → Writers
holding b c = record {
  client_writer = writer (codes "IN") b;
  target_writer = writer (codes "OUT") c;
}

module _ (parser : Parser) where
  -- How a line of a side is handled: without its white space at both ends and unless nothing is left,
  -- it is given to the parser, the client's as `IN` and the target's as `OUT`.
  abbrev pub handle_sent : Wire → Sent → Wire
  handle_sent w (by_client l) =
      let text = trim_space l in
      if is_empty text then w else deliver parser (codes "IN") (codes "socket") text w
  handle_sent w (by_target l) =
      let text = trim_space l in
      if is_empty text then w else deliver parser (codes "OUT") (codes "socket") text w

  foldl_clients :
      (ls : List Bytes) (w : Wire)
      → foldl handle_sent w (map by_client ls)
        ≡ foldl (λ v l. socket_line parser new_writers.client_writer l v) w ls
  unfolding socket_line
  foldl_clients [] w = refl
  foldl_clients (l ∷ ls) w = foldl_clients ls (socket_line parser new_writers.client_writer l w)

  foldl_targets :
      (ls : List Bytes) (w : Wire)
      → foldl handle_sent w (map by_target ls)
        ≡ foldl (λ v l. socket_line parser new_writers.target_writer l v) w ls
  unfolding socket_line
  foldl_targets [] w = refl
  foldl_targets (l ∷ ls) w = foldl_targets ls (socket_line parser new_writers.target_writer l w)

  copy_client :
      (p : Bytes) (r : WriteResult) (b c : Bytes) (w : Wire)
      → IsLine b
      → copy parser (from_client p r) (holding b c) w ≡ (
        holding (split_lines (b ++ take r.written p)).0 c,
        foldl handle_sent w (map by_client (split_lines (b ++ take r.written p)).1),
      )
  unfolding copy socket_line
  copy_client p r b c w h =
      let x = split_lines (b ++ take r.written p) in
      ap (λ o. (record (holding b c) { client_writer = o.1 }, o.2))
        (write-drain parser p r (writer (codes "IN") b) w h)
      ∙ ap (λ o. (holding o.0 c, o.1))
          (drain-split line_cutter (socket_line parser new_writers.client_writer)
            (b ++ take r.written p) w)
      ∙ ap (λ v. (holding x.0 c, v)) (sym (foldl_clients x.1 w))

  copy_target :
      (p : Bytes) (r : WriteResult) (b c : Bytes) (w : Wire)
      → IsLine c
      → copy parser (from_target p r) (holding b c) w ≡ (
        holding b (split_lines (c ++ take r.written p)).0,
        foldl handle_sent w (map by_target (split_lines (c ++ take r.written p)).1),
      )
  unfolding copy socket_line
  copy_target p r b c w h =
      let x = split_lines (c ++ take r.written p) in
      ap (λ o. (record (holding b c) { target_writer = o.1 }, o.2))
        (write-drain parser p r (writer (codes "OUT") c) w h)
      ∙ ap (λ o. (holding b o.0, o.1))
          (drain-split line_cutter (socket_line parser new_writers.target_writer)
            (c ++ take r.written p) w)
      ∙ ap (λ v. (holding b x.0, v)) (sym (foldl_targets x.1 w))

  -- The lines of both sides, in some order, are what is delivered, and each writer keeps its own
  -- rest.
  abbrev Merged :
      List Copied → Bytes → Bytes → Wire → Bytes × List Bytes → Bytes × List Bytes → Type 0
  Merged cs b c w x y =
      (zs : List Sent) × Merge x.1 y.1 zs
      × (copies parser cs (holding b c) w ≡ (holding x.0 y.0, foldl handle_sent w zs))

  copies-Merged :
      (cs : List Copied) (b c : Bytes) (w : Wire) (x y : Bytes × List Bytes)
      → IsLine b
      → IsLine c
      → split_lines (b ++ joined (taken (by_clients cs))) ≡ x
      → split_lines (c ++ joined (taken (by_targets cs))) ≡ y
      → Merged cs b c w x y
  unfolding copies
  copies-Merged [] b c w x y hb hc ex ey =
      let qx : x ≡ (b, []) =
        sym ex ∙ ap split_lines (append-nil b) ∙ split_lines-unlines [] b tt hb in
      let qy : y ≡ (c, []) =
        sym ey ∙ ap split_lines (append-nil c) ∙ split_lines-unlines [] c tt hc in
      rw (qx, qy) ([], done, refl)
  copies-Merged (from_client p r ∷ cs) b c w x y hb hc ex ey =
      let a = b ++ take r.written p in
      let u = foldl handle_sent w (map by_client (split_lines a).1) in
      let more = split_lines ((split_lines a).0 ++ joined (taken (by_clients cs))) in
      let qx : x ≡ (more.0, (split_lines a).1 ++ more.1) =
        sym ex
        ∙ ap split_lines (sym (append_assoc b (take r.written p) (joined (taken (by_clients cs)))))
        ∙ split-append line_cutter line_cutter-IsCutter a (joined (taken (by_clients cs))) in
      let (zs, m, e) =
        copies-Merged cs (split_lines a).0 c u more y (IsLine-split_lines a) hc refl ey in
      rw qx (
        map by_client (split_lines a).1 ++ zs,
        client_first (split_lines a).1 m,
        ap (λ o. copies parser cs o.0 o.1) (copy_client p r b c w hb)
            ∙ e
            ∙ ap (λ v. (holding more.0 y.0, v))
                (sym (foldl-append handle_sent w (map by_client (split_lines a).1) zs)),
      )
  copies-Merged (from_target p r ∷ cs) b c w x y hb hc ex ey =
      let a = c ++ take r.written p in
      let u = foldl handle_sent w (map by_target (split_lines a).1) in
      let more = split_lines ((split_lines a).0 ++ joined (taken (by_targets cs))) in
      let qy : y ≡ (more.0, (split_lines a).1 ++ more.1) =
        sym ey
        ∙ ap split_lines (sym (append_assoc c (take r.written p) (joined (taken (by_targets cs)))))
        ∙ split-append line_cutter line_cutter-IsCutter a (joined (taken (by_targets cs))) in
      let (zs, m, e) =
        copies-Merged cs b (split_lines a).0 u x more hb (IsLine-split_lines a) ex refl in
      rw qy (
        map by_target (split_lines a).1 ++ zs,
        target_first (split_lines a).1 m,
        ap (λ o. copies parser cs o.0 o.1) (copy_target p r b c w hc)
            ∙ e
            ∙ ap (λ v. (holding x.0 more.0, v))
                (sym (foldl-append handle_sent w (map by_target (split_lines a).1) zs)),
      )

  -- However the copies of the two directions alternate, and however the connections cut the streams
  -- into calls, the lines that they took of each side are delivered in order, each once, the client's
  -- as `IN` and the target's as `OUT`, without white space at their ends and unless nothing is left.
  -- The target's connection is opened and closed and then the client's closed; where the target does
  -- not answer the dial, the client's is closed and nothing is delivered.
  pub handle_connection-Merge :
      (cs : List Copied) (w : Wire) (ls ms : List Bytes) (rest rest' : Bytes)
      → joined (taken (by_clients cs)) ≡ unlines ls ++ rest
      → joined (taken (by_targets cs)) ≡ unlines ms ++ rest'
      → All IsLine ls
      → IsLine rest
      → All IsLine ms
      → IsLine rest'
      → ((zs : List Sent) × Merge ls ms zs
          × ((handle_connection parser true cs w).1 ≡ foldl handle_sent w zs))
        × ((handle_connection parser false cs w).1 ≡ w)
        × ((handle_connection parser true cs w).0
            ≡ opens target_conn ∷ closes target_conn ∷ closes client_conn ∷ [])
        × ((handle_connection parser false cs w).0 ≡ closes client_conn ∷ [])
  unfolding handle_connection run_steps
  handle_connection-Merge cs w ls ms rest rest' el em hl hr hm hr' =
      let (zs, m, e) =
        copies-Merged cs [] [] w (rest, ls) (rest', ms) nil-IsLine nil-IsLine
          (ap split_lines el ∙ split_lines-unlines ls rest hl hr)
          (ap split_lines em ∙ split_lines-unlines ms rest' hm hr') in
      ((zs, m, ap (λ o. o.1) e), refl, refl, refl)
