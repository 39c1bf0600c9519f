-- ===== src/Transport/Socket/Laws.antt =====
-- What the interceptor delivers does not depend on how the connection cuts the stream.
use mcpwatch.Base.{
  ◌≡◌, refl, ap, ◌∙◌, inl, inr, Bool-cases, List, [], ◌∷◌, ◌++◌, map, foldl, append-nil, Bytes,
  take, All, ltb, arith,
}
use mcpwatch.Engine.Parser.{Parser}
use mcpwatch.Transport.Cutter.{drain, drain-keep, drain_chunks, drain_chunks-drain, joined}
use mcpwatch.Transport.Lines.{
  line_cutter, line_cutter-IsCutter, unlines, IsLine, drain-unlines, cut_line-none, IsLine-drain,
  index_byte,
}
use mcpwatch.Transport.Socket.{SocketInterceptor, WriteResult, socket_line, write, write_all}
use mcpwatch.Transport.Wire.{Wire}

-- The bytes that the connection took of each call.
abbrev pub taken : List (Bytes × WriteResult) → List Bytes
taken = map (λ c. take c.1.written c.0)

module _ (parser : Parser) where
  -- A call with nothing written is a call with an empty chunk.
  pub write-drain :
      (p : Bytes) (r : WriteResult) (s : SocketInterceptor) (w : Wire)
      → IsLine s.buf
      → write parser p r s w ≡ (
          let (buf, w') = drain line_cutter (socket_line parser s) (s.buf ++ take r.written p) w in
          (r, record s { buf = buf }, w'))
  unfolding write
  write-drain p r s w h = elim (Bool-cases (ltb 0 r.written)) [
    | inl e ↦ rw e
    | inr e ↦
        let none_written : r.written ≡ 0 = ground arith in
        let idle : drain line_cutter (socket_line parser s) (s.buf ++ take r.written p) w
            ≡ (s.buf, w) =
          ap (λ n. drain line_cutter (socket_line parser s) (s.buf ++ take n p) w) none_written
          ∙ rw append-nil (
              drain-keep line_cutter (socket_line parser s) line_cutter-IsCutter s.buf w
                (cut_line-none s.buf h)) in
        rw (e, idle)
  ]

  write_all-drain :
      (ps : List (Bytes × WriteResult)) (s : SocketInterceptor) (w : Wire)
      → IsLine s.buf
      → write_all parser ps s w ≡ (
          let (buf, w') = drain_chunks line_cutter (socket_line parser s) (taken ps) s.buf w in
          (record s { buf = buf }, w'))
  unfolding write_all drain_chunks socket_line
  write_all-drain [] s w h = refl
  write_all-drain ((p, r) ∷ ps) s w h =
      ap (λ x. write_all parser ps x.1 x.2) (write-drain p r s w h)
      ∙ write_all-drain ps _ _ (IsLine-drain (socket_line parser s) (s.buf ++ take r.written p) w)

  -- However the connection cuts the stream into calls, and however much of each call it takes,
  -- the lines of what it took are delivered in order, each once, and the interceptor keeps the
  -- unfinished line.
  pub write_all-lines :
      (ps : List (Bytes × WriteResult)) (s : SocketInterceptor) (w : Wire) (ls : List Bytes)
      (rest : Bytes)
      → s.buf ≡ []
      → joined (taken ps) ≡ unlines ls ++ rest
      → All IsLine ls
      → IsLine rest
      → write_all parser ps s w
        ≡ (record s { buf = rest }, foldl (λ v l. socket_line parser s l v) w ls)
  write_all-lines ps s w ls rest empty j hl hr =
      let handle = socket_line parser s in
      let no_line : IsLine s.buf = ap (index_byte b'\n') empty ∙ unfold index_byte in refl in
      let whole : drain_chunks line_cutter handle (taken ps) s.buf w
          ≡ (rest, foldl (λ v l. handle l v) w ls) =
        drain_chunks-drain line_cutter handle line_cutter-IsCutter (taken ps) s.buf w
          (cut_line-none s.buf no_line, refl)
        ∙ ap (λ x. drain line_cutter handle x w) (ap (λ b. b ++ joined (taken ps)) empty ∙ j)
        ∙ drain-unlines handle ls rest w hl hr in
      write_all-drain ps s w no_line ∙ ap (λ x. (record s { buf = x.0 }, x.1)) whole
