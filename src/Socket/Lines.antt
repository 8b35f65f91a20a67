-- ===== src/Socket/Lines.antt =====
-- The line buffer of src/shared/socket.cpp cuts a stream into exactly the lines that were sent,
-- however the stream arrives.
use draind.Base.{
  ℕ, zero, suc, ◌≤◌, ◌≡◌, refl, ap, sym, ◌∙◌, true, ◌⊎◌, inl, inr, Bool-cases, none, some, List, [],
  ◌∷◌, ◌++◌, append_assoc, append-nil, Text, All, All-append, length, length-append, ◌==◌, arith,
}
use draind.Json.OneLine.{IsLine}
use draind.Socket.{bytes, would_block, cut_line, take_lines, extract, feed}

-- The stream that carries some lines.
unfoldable pub unlines : List Text → Text
unlines [] = []
unlines (l ∷ ls) = l ++ 10 ∷ unlines ls

pub cut_line-line : (l r : Text) → IsLine l → cut_line (l ++ 10 ∷ r) ≡ some (l, r)
unfolding cut_line
cut_line-line [] r h = refl
cut_line-line (c ∷ l) r (h, hs) = ground (arith, cut_line-line l r hs)

cut_line-rest : (b : Text) → IsLine b → cut_line b ≡ none
unfolding cut_line
cut_line-rest [] h = refl
cut_line-rest (c ∷ b) (h, hs) = ground (arith, cut_line-rest b hs)

-- A text is one unfinished line, or a line, its break and the rest.
cut_first : (s : Text) → IsLine s ⊎ ((l : Text) × (r : Text) × IsLine l × (s ≡ l ++ 10 ∷ r))
cut_first [] = inl tt
cut_first (c ∷ s) = elim (Bool-cases (c == 10)) [
  | inl e ↦ inr ([], s, tt, ground arith)
  | inr e ↦ elim (cut_first s) [
    | inl h ↦ inl (ground arith, h)
    | inr (l, r, h, p) ↦ inr (c ∷ l, r, (ground arith, h), ap (◌∷◌ c) p)
  ]
]

take_lines-unlines :
    (f : ℕ) (ls : List Text) (b : Text)
    → All IsLine ls
    → IsLine b
    → length (unlines ls ++ b) ≤ f
    → take_lines f (unlines ls ++ b) ≡ (ls, b)
unfolding take_lines unlines
take_lines-unlines zero [] b h hb n = refl
take_lines-unlines (suc f) [] b h hb n = rw (take_lines, cut_line-rest b hb)
take_lines-unlines zero (l ∷ ls) b h hb n =
    absurd
      (omega (arith, length-append l (10 ∷ unlines ls), length-append (l ++ 10 ∷ unlines ls) b))
take_lines-unlines (suc f) (l ∷ ls) b (h, hs) hb n =
    let short : length (unlines ls ++ b) ≤ f = omega (
      arith,
      length-append (l ++ 10 ∷ unlines ls) b,
      length-append l (10 ∷ unlines ls),
      length-append (unlines ls) b,
    ) in
    rw (
      append_assoc l (10 ∷ unlines ls) b,
      take_lines,
      cut_line-line l (unlines ls ++ b) h,
      take_lines-unlines f ls b hs hb short,
    )

-- Lines that were sent, with an unfinished one behind them, are taken apart again.
pub extract-unlines :
    (ls : List Text) (b : Text) → All IsLine ls → IsLine b → extract (unlines ls ++ b) ≡ (ls, b)
unfolding extract
extract-unlines ls b h hb = take_lines-unlines _ ls b h hb (omega arith)

-- Every text is some lines and an unfinished one.
split_lines :
    (f : ℕ) (s : Text)
    → length s ≤ f
    → (ls : List Text) × (b : Text) × All IsLine ls × IsLine b × (s ≡ unlines ls ++ b)
unfolding unlines
split_lines zero [] n = ([], [], tt, tt, refl)
split_lines zero (c ∷ s) n = absurd (omega arith)
split_lines (suc f) s n = elim (cut_first s) [
  | inl h ↦ ([], s, tt, h, refl)
  | inr (l, r, h, p) ↦
      let short : length r ≤ f = omega (arith, ap length p, length-append l (10 ∷ r)) in
      let (ls, b, hs, hb, q) = split_lines f r short in
      (
        l ∷ ls,
        b,
        (h, hs),
        hb,
        p ∙ ap (λ t. l ++ 10 ∷ t) q ∙ sym (append_assoc l (10 ∷ unlines ls) b),
      )
]

-- What `extract` returns makes up the text again, and no line break is left in a line.
pub extract_lem :
    (s : Text)
    → (s ≡ unlines (extract s).0 ++ (extract s).1) × All IsLine (extract s).0 × IsLine (extract s).1
extract_lem s =
    let (ls, b, hs, hb, q) = split_lines (length s) s (omega arith) in
    let e : extract s ≡ (ls, b) = ap extract q ∙ extract-unlines ls b hs hb in rw e (q, hs, hb)

unlines-append : (ls ms : List Text) → unlines (ls ++ ms) ≡ unlines ls ++ unlines ms
unfolding unlines
unlines-append [] ms = refl
unlines-append (l ∷ ls) ms =
    ap (λ t. l ++ 10 ∷ t) (unlines-append ls ms)
    ∙ sym (append_assoc l (10 ∷ unlines ls) (unlines ms))

-- The lines of a text that arrives in two parts: those of the first part, then those of what it
-- left and the second part.
pub extract-append :
    (s t : Text)
    → extract (s ++ t)
      ≡ ((extract s).0 ++ (extract ((extract s).1 ++ t)).0, (extract ((extract s).1 ++ t)).1)
extract-append s t =
    let ls = (extract s).0 in
    let b = (extract s).1 in
    let ms = (extract (b ++ t)).0 in
    let c = (extract (b ++ t)).1 in
    let (p, hs, hb) = extract_lem s in
    let (q, ks, kc) = extract_lem (b ++ t) in
    let whole : s ++ t ≡ unlines (ls ++ ms) ++ c =
      ap (λ u. u ++ t) p
      ∙ append_assoc (unlines ls) b t
      ∙ ap (λ u. unlines ls ++ u) q
      ∙ sym (append_assoc (unlines ls) (unlines ms) c)
      ∙ ap (λ u. u ++ c) (sym (unlines-append ls ms)) in
    ap extract whole ∙ extract-unlines (ls ++ ms) c (All-append IsLine ls ms hs ks) kc

-- The buffer fed with one arrival after another, each up to the point where the read would block.
unfoldable pub feed_all : Text → List Text → List Text × Text
feed_all buf [] = ([], buf)
feed_all buf (c ∷ cs) =
    let (ok, ls, b) = feed buf (bytes c ∷ would_block ∷ []) in
    let (ms, r) = feed_all b cs in (ls ++ ms, r)

unfoldable pub concat : List Text → Text
concat [] = []
concat (c ∷ cs) = c ++ concat cs

feed-bytes :
    (buf c : Text)
    → feed buf (bytes c ∷ would_block ∷ []) ≡ (true, (extract (buf ++ c)).0, (extract (buf ++ c)).1)
unfolding feed
feed-bytes buf c = refl

-- However a stream is cut into arrivals, the buffer, which holds no complete line at first, yields
-- the lines of the whole stream.
pub feed_all-extract :
    (cs : List Text) (buf : Text) → IsLine buf → feed_all buf cs ≡ extract (buf ++ concat cs)
unfolding feed_all concat unlines
feed_all-extract [] buf h = sym (ap extract (append-nil buf) ∙ extract-unlines [] buf tt h)
feed_all-extract (c ∷ cs) buf h =
    rw (feed-bytes buf c, feed_all-extract cs _ (extract_lem (buf ++ c)).2)
      (sym
        (ap extract (sym (append_assoc buf c (concat cs))) ∙ extract-append (buf ++ c) (concat cs)))
