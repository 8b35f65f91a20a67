-- ===== src/Ctl/Exchange.antt =====
-- How the reply of the daemon reaches `draindctl` (src/ctl/main.cpp), however it arrives.
use mathlib.Core.Option
use draind.Base.{
  ℕ, ◌≡◌, refl, ap, sym, ◌∙◌, false, Bool-cases, some, Option-cases, some-injective, inl, inr, List,
  [], ◌∷◌, ◌++◌, append-nil, append_assoc, map, Text, codes, is_empty, ◌==◌,
}
use draind.Json.Value.{Value, Floats, string, assign}
use draind.Json.Printer.{dump}
use draind.Json.Exact.{IsExact}
use draind.Json.RoundTrip.{parse-dump}
use draind.Json.OneLine.{IsLine, dump-IsLine}
use draind.Socket.{cut_line}
use draind.Socket.Lines.{concat, cut_line-line}
use draind.Protocol.{encode_ctl_reply, t_ctl_reply}
use draind.Ctl.{Command, chunk, receive, recv_line, on_response, on_reply, exchange}

-- What a text in front does not change.
cut_line-append : (s t l r : Text) → cut_line s ≡ some (l, r) → cut_line (s ++ t) ≡ some (l, r ++ t)
unfolding cut_line
cut_line-append [] t l r e = cc
cut_line-append (c ∷ s) t l r e = elim (Bool-cases (c == 10)) [
  | inl x ↦ rw x (ap (Option.map (λ (a, b). (a, b ++ t))) (rw x at e))
  | inr x ↦ elim (Option-cases (cut_line s)) [
    | inl k ↦ cc (rw (x, k) at e)
    | inr ((a, b), k) ↦
        rw (x, cut_line-append s t a b k) (ap (Option.map (λ (a, b). (a, b ++ t))) (rw (x, k) at e))
  ]
]

-- A complete line is taken out of what was received, whatever followed it and however it was cut.
receive-line :
    (cs : List Text) (acc l r : Text)
    → cut_line (acc ++ concat cs) ≡ some (l, r)
    → (r' : Text) × (cut_line (receive acc (map chunk cs)) ≡ some (l, r'))
unfolding receive concat
receive-line [] acc l r e = (r, ap cut_line (sym (append-nil acc)) ∙ e)
receive-line (c ∷ cs) acc l r e = elim (Option-cases (cut_line (acc ++ c))) [
  | inl k ↦
      let goes_on : receive acc (map chunk (c ∷ cs)) ≡ receive (acc ++ c) (map chunk cs) =
        rw (receive, k) refl in
      let (rest, q) =
        receive-line cs (acc ++ c) l r (ap cut_line (append_assoc acc c (concat cs)) ∙ e) in
      (rest, ap cut_line goes_on ∙ q)
  | inr ((a, b), k) ↦
      let stops : receive acc (map chunk (c ∷ cs)) ≡ acc ++ c = rw (receive, k) refl in
      let whole : cut_line ((acc ++ c) ++ concat cs) ≡ some (a, b ++ concat cs) =
        cut_line-append (acc ++ c) (concat cs) a b k in
      let same : some (a, b ++ concat cs) ≡ some (l, r) =
        sym whole ∙ ap cut_line (append_assoc acc c (concat cs)) ∙ e in
      let front : a ≡ l = ap (λ p. p.0) (some-injective _ _ same) in
      (b, ap cut_line stops ∙ k ∙ ap (λ x. some (x, b)) front)
]

-- The line in front of the first line break is received, however the stream is cut.
pub recv_line_lem :
    (cs : List Text) (l r : Text)
    → cut_line (concat cs) ≡ some (l, r)
    → recv_line (map chunk cs) ≡ l
unfolding recv_line
recv_line_lem cs l r e = let (rest, k) = receive-line cs [] l r e in rw (recv_line, k) refl

module _ (fl : Floats) (printable : (x : ℕ) → IsLine (fl.print_g x)) where
  -- A reply that is printed without loss and arrives cut in any way ends `draindctl` as the value
  -- itself does, with its type added.
  pub exchange-reply :
      (socket error : Text) (cmd : Command) (v : Value) (cs : List Text)
      → IsExact (assign v (codes "type") (string t_ctl_reply))
      → concat cs ≡ encode_ctl_reply fl v ++ 10 ∷ []
      → exchange fl socket cmd (some (map chunk cs)) error
        ≡ on_reply fl cmd (assign v (codes "type") (string t_ctl_reply))
  unfolding exchange on_response encode_ctl_reply
  exchange-reply socket error cmd v cs h e =
      let w = assign v (codes "type") (string t_ctl_reply) in
      let received : recv_line (map chunk cs) ≡ dump fl w =
        recv_line_lem cs (dump fl w) []
          (ap cut_line e ∙ cut_line-line (dump fl w) [] (dump-IsLine fl printable w)) in
      let starts : is_empty (dump fl w) ≡ false = unfold dump assign in refl in
      rw (received, starts, parse-dump fl w h) refl
