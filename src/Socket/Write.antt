-- ===== src/Socket/Write.antt =====
-- What `write_line` of src/shared/socket.cpp puts on the wire.
use draind.Base.{
  ℕ, zero, suc, ◌≤◌, ◌<◌, ◌≡◌, refl, ap, ◌∙◌, List, [], ◌∷◌, ◌++◌, append_assoc, Text, length,
  length-append, length-drop, drop, take, take-append-drop, arith, All,
}
use draind.Socket.{
  WriteResult, wrote, interrupted, failed, WriteState, complete, refused, waiting, write_all,
  write_line,
}

-- What went out is the front of the text, and all of it if the call returned true.
abbrev pub Sent : WriteState → Text → Text → Type 0
Sent complete s out = out ≡ s
Sent refused s out = (rest : Text) × (out ++ rest ≡ s)
Sent waiting s out = (rest : Text) × (out ++ rest ≡ s)

Sent-take :
    (st : WriteState) (n : ℕ) (s out : Text) → Sent st (drop n s) out → Sent st s (take n s ++ out)
Sent-take complete n s out h = ap (λ t. take n s ++ t) h ∙ take-append-drop n s
Sent-take refused n s out (rest, h) =
    (rest, append_assoc (take n s) out rest ∙ ap (λ t. take n s ++ t) h ∙ take-append-drop n s)
Sent-take waiting n s out (rest, h) =
    (rest, append_assoc (take n s) out rest ∙ ap (λ t. take n s ++ t) h ∙ take-append-drop n s)

write_all-Sent : (s : Text) (rs : List WriteResult) → Sent (write_all s rs).0 s (write_all s rs).1
unfolding write_all
write_all-Sent [] rs = refl
write_all-Sent (c ∷ s) [] = (c ∷ s, refl)
write_all-Sent (c ∷ s) (wrote n ∷ rs) = Sent-take _ n (c ∷ s) _ (write_all-Sent (drop n (c ∷ s)) rs)
write_all-Sent (c ∷ s) (interrupted ∷ rs) = write_all-Sent (c ∷ s) rs
write_all-Sent (c ∷ s) (failed ∷ rs) = (c ∷ s, refl)

-- Whatever the kernel answers, what went out is the front of the message and its line break, and
-- exactly that if `write_line` returned true.
pub write_line-Sent :
    (msg : Text) (rs : List WriteResult)
    → Sent (write_line msg rs).0 (msg ++ 10 ∷ []) (write_line msg rs).1
unfolding write_line
write_line-Sent msg rs = write_all-Sent (msg ++ 10 ∷ []) rs

-- The kernel took a character at least.
abbrev pub MakesProgress : WriteResult → Type 0
MakesProgress (wrote n) = 0 < n
MakesProgress interrupted = ⊥
MakesProgress failed = ⊥

length-drop_lt : (n : ℕ) (c : ℕ) (s : Text) → 0 < n → length (drop n (c ∷ s)) < length (c ∷ s)
length-drop_lt zero c s h = absurd (omega arith)
length-drop_lt (suc n) c s h = omega (arith, length-drop n s)

write_all-complete :
    (s : Text) (rs : List WriteResult)
    → All MakesProgress rs
    → length s ≤ length rs
    → (write_all s rs).0 ≡ complete
unfolding write_all
write_all-complete [] rs h n = refl
write_all-complete (c ∷ s) [] h n = absurd (omega arith)
write_all-complete (c ∷ s) (wrote k ∷ rs) (h, hs) n =
    write_all-complete (drop k (c ∷ s)) rs hs (omega (arith, length-drop_lt k c s h))
write_all-complete (c ∷ s) (interrupted ∷ rs) (h, hs) n = absurd h
write_all-complete (c ∷ s) (failed ∷ rs) (h, hs) n = absurd h

-- A kernel that takes a character at least each time, and as often as the line has characters,
-- takes the whole line: `write_line` ends, and
-- returns true.
pub write_line-complete :
    (msg : Text) (rs : List WriteResult)
    → All MakesProgress rs
    → length msg < length rs
    → (write_line msg rs).0 ≡ complete
unfolding write_line
write_line-complete msg rs h n =
    write_all-complete (msg ++ 10 ∷ []) rs h (omega (arith, length-append msg (10 ∷ [])))
