-- ===== src/Protocol/Channel.antt =====
-- Messages over a connection, from `json::dump` and `write_line` of the sender to `LineBuffer` and
-- `decode` of the receiver (src/shared/protocol.hpp, src/shared/socket.cpp).
use draind.Base.{
  ℕ, ◌≡◌, refl, sym, ap, ◌∙◌, List, [], ◌∷◌, ◌++◌, append-nil, append_assoc, subst, map, Text, All,
  ok,
}
use draind.Json.Value.{Value, Floats}
use draind.Json.Printer.{dump}
use draind.Json.Exact.{IsExact}
use draind.Json.RoundTrip.{parse-dump}
use draind.Json.OneLine.{IsLine, dump-IsLine}
use draind.Socket.{WriteResult, complete, write_line, extract}
use draind.Socket.Write.{Sent, write_line-Sent}
use draind.Socket.Lines.{unlines, feed_all, concat, feed_all-extract, extract-unlines}
use draind.Protocol.{decode}

-- What some calls of `write_line` put on the wire, one after another.
unfoldable pub written : List (Text × List WriteResult) → Text
written [] = []
written ((msg, rs) ∷ ws) = (write_line msg rs).1 ++ written ws

-- Each call returned true.
abbrev pub AllComplete : List (Text × List WriteResult) → Type 0
AllComplete = All (λ (msg, rs). (write_line msg rs).0 ≡ complete)

written-unlines :
    (ws : List (Text × List WriteResult))
    → AllComplete ws
    → written ws ≡ unlines (map (λ (msg, rs). msg) ws)
unfolding written unlines
written-unlines [] h = refl
written-unlines ((msg, rs) ∷ ws) (h, hs) =
    let line : (write_line msg rs).1 ≡ msg ++ 10 ∷ [] =
      subst (λ st. Sent st (msg ++ 10 ∷ []) (write_line msg rs).1) h (write_line-Sent msg rs) in
    ap (λ s. s ++ written ws) line
    ∙ append_assoc msg (10 ∷ []) (written ws)
    ∙ ap (λ s. msg ++ 10 ∷ s) (written-unlines ws hs)

module _ (fl : Floats) where
  lines-IsLine :
      ((x : ℕ) → IsLine (fl.print_g x)) → (vs : List Value) → All IsLine (map (dump fl) vs)
  lines-IsLine h [] = tt
  lines-IsLine h (v ∷ vs) = (dump-IsLine fl h v, lines-IsLine h vs)

  decode-dump : (vs : List Value) → All IsExact vs → map (decode fl) (map (dump fl) vs) ≡ map ok vs
  unfolding decode
  decode-dump [] h = refl
  decode-dump (v ∷ vs) (h, hs) = rw (parse-dump fl v h, decode-dump vs hs)

  -- Where `%g` prints no line break: values of the kind that is printed without loss, written by calls
  -- of `write_line` that returned true, reach the other side. Cut into arrivals in any way, the
  -- stream gives the line buffer one line for each of them, the lines decode to the values in their
  -- order, and nothing is left in the buffer.
  pub channel_delivers :
      ((x : ℕ) → IsLine (fl.print_g x))
      → (vs : List Value) (ws : List (Text × List WriteResult)) (cs : List Text) → All IsExact vs
      → map (λ (msg, rs). msg) ws ≡ map (dump fl) vs
      → AllComplete ws
      → concat cs ≡ written ws
      → (map (decode fl) (feed_all [] cs).0 ≡ map ok vs) × ((feed_all [] cs).1 ≡ [])
  channel_delivers line vs ws cs h e done p =
      let stream : concat cs ≡ unlines (map (dump fl) vs) ++ [] =
        p ∙ written-unlines ws done ∙ ap unlines e ∙ sym (append-nil _) in
      let lines : feed_all [] cs ≡ (map (dump fl) vs, []) =
        feed_all-extract cs [] tt
        ∙ ap extract stream
        ∙ extract-unlines (map (dump fl) vs) [] (lines-IsLine line vs) tt in
      rw lines (decode-dump vs h, refl)
