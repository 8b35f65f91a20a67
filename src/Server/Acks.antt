-- ===== src/Server/Acks.antt =====
-- Which agents have answered when the wait of src/daemon/server.cpp ends.
use draind.Base.{
  ℕ, Bool, true, false, Text, codes, ◌++◌, starts_with, ==_iff, subst, sym, ap, ◌&&◌, ◌||◌, not,
  Bool-cases, ◌≡◌, ◌↔◌, refl, List, [], ◌∷◌, ◌==◌, arith, inl, inr,
}
use draind.Server.{
  Received, Round, hung_up, got, contains, expired, silent, ready, answers, remove, collect,
  wait_acks,
}

unfoldable pub is_in : ℕ → List ℕ → Bool
is_in fd [] = false
is_in fd (x ∷ xs) = (fd == x) || is_in fd xs

-- One of the results of a round is an answer of `fd`.
unfoldable pub answered : ℕ → List (ℕ × Received) → Bool
answered fd [] = false
answered fd ((x, r) ∷ rs) = (answers r && fd == x) || answered fd rs

-- `fd` answers in a round before the deadline.
unfoldable pub heard : ℕ → List Round → Bool
unfolding answered
heard fd [] = false
heard fd (expired ∷ rounds) = false
heard fd (silent ∷ rounds) = heard fd rounds
heard fd (ready rs ∷ rounds) = answered fd rs || heard fd rounds

is_in-remove :
    (fd x : ℕ) (pending : List ℕ)
    → is_in fd (remove x pending) ≡ (is_in fd pending && not (fd == x))
unfolding is_in remove
is_in-remove fd x [] = refl
is_in-remove fd x (y ∷ ys) = ground (arith, is_in-remove fd x ys)

is_in-collect :
    (fd : ℕ) (pending : List ℕ) (rs : List (ℕ × Received))
    → is_in fd (collect pending rs) ≡ (is_in fd pending && not (answered fd rs))
unfolding collect answered
is_in-collect fd pending [] = ground arith
is_in-collect fd pending ((x, r) ∷ rs) = elim (Bool-cases (answers r)) [
  | inl e ↦ rw e (ground (arith, is_in-collect fd (remove x pending) rs, is_in-remove fd x pending))
  | inr e ↦ rw e (ground (arith, is_in-collect fd pending rs))
]

-- A descriptor has answered: it has hung up, or what it sent has the word of the ack in it.
pub data Answers : Received → Type 0 where
  leaves : Answers hung_up
  says_ack : (before behind : Text) → Answers (got (before ++ codes "\"ack\"" ++ behind))

-- Among the results of a round is an answer of `fd`.
pub data AnswersIn (fd : ℕ) : List (ℕ × Received) → Type 0 where
  this :
      {x : ℕ} {r : Received} {rs : List (ℕ × Received)}
      → fd ≡ x
      → Answers r
      → AnswersIn fd ((x, r) ∷ rs)
  another : {x : ℕ × Received} {rs : List (ℕ × Received)} → AnswersIn fd rs → AnswersIn fd (x ∷ rs)

-- `fd` answers in a round before the deadline.
pub data InTime (fd : ℕ) : List Round → Type 0 where
  at_once :
      {rs : List (ℕ × Received)} {rounds : List Round}
      → AnswersIn fd rs
      → InTime fd (ready rs ∷ rounds)
  after_silence : {rounds : List Round} → InTime fd rounds → InTime fd (silent ∷ rounds)
  after_others :
      {rs : List (ℕ × Received)} {rounds : List Round}
      → InTime fd rounds
      → InTime fd (ready rs ∷ rounds)

starts_with-append : (t s : Text) → starts_with t (t ++ s) ≡ true
unfolding starts_with
starts_with-append [] s = refl
starts_with-append (c ∷ t) s = ground (arith, starts_with-append t s)

starts_with_rest : (t s : Text) → starts_with t s ≡ true → (behind : Text) × (s ≡ t ++ behind)
unfolding starts_with
starts_with_rest [] s h = (s, refl)
starts_with_rest (c ∷ t) [] h = cc
starts_with_rest (c ∷ t) (d ∷ s) h =
    let (behind, e) = starts_with_rest t s (ground (arith, h)) in
    let same : c ≡ d = ground (arith, h, ==_iff c d) in (behind, rw (same, e) refl)

contains-append : (t before behind : Text) → contains t (before ++ t ++ behind) ≡ true
unfolding contains
contains-append t [] behind = contains-starts_with t (t ++ behind) (starts_with-append t behind)
  where
    contains-starts_with : (t s : Text) → starts_with t s ≡ true → contains t s ≡ true
    contains-starts_with t [] h = h
    contains-starts_with t (c ∷ s) h = rw h refl
contains-append t (c ∷ before) behind = ground (arith, contains-append t before behind)

contains_split :
    (t s : Text)
    → contains t s ≡ true
    → (before : Text) × (behind : Text) × (s ≡ before ++ t ++ behind)
unfolding contains
contains_split t [] h = let (behind, e) = starts_with_rest t [] h in ([], behind, e)
contains_split t (c ∷ s) h = elim (Bool-cases (starts_with t (c ∷ s))) [
  | inl x ↦ let (behind, e) = starts_with_rest t (c ∷ s) x in ([], behind, e)
  | inr x ↦
      let (before, behind, e) = contains_split t s (rw x at h) in
      (c ∷ before, behind, ap (λ xs. c ∷ xs) e)
]

answers_sound : (r : Received) → answers r ≡ true → Answers r
unfolding answers
answers_sound hung_up h = leaves
answers_sound (got s) h =
    let (before, behind, e) = contains_split (codes "\"ack\"") s h in
    subst (λ x. Answers (got x)) (sym e) (says_ack before behind)

answers_complete : (r : Received) → Answers r → answers r ≡ true
unfolding answers
answers_complete _ leaves = refl
answers_complete _ (says_ack before behind) = contains-append (codes "\"ack\"") before behind

answered_sound : (fd : ℕ) (rs : List (ℕ × Received)) → answered fd rs ≡ true → AnswersIn fd rs
unfolding answered
answered_sound fd [] h = cc
answered_sound fd ((x, r) ∷ rs) h = elim (Bool-cases (answers r && fd == x)) [
  | inl e ↦ this (ground (arith, e, ==_iff fd x)) (answers_sound r (ground (arith, e)))
  | inr e ↦ another (answered_sound fd rs (rw e at h))
]

answered_complete : (fd : ℕ) (rs : List (ℕ × Received)) → AnswersIn fd rs → answered fd rs ≡ true
unfolding answered
answered_complete fd [] k = elim k [ ]
answered_complete fd ((x, r) ∷ rs) (this p k) =
    let e : answers r ≡ true = answers_complete r k in ground (arith, e, ==_iff fd x)
answered_complete fd ((x, r) ∷ rs) (another k) = ground (arith, answered_complete fd rs k)

heard_sound : (fd : ℕ) (rounds : List Round) → heard fd rounds ≡ true → InTime fd rounds
unfolding heard
heard_sound fd [] h = cc
heard_sound fd (expired ∷ rounds) h = cc
heard_sound fd (silent ∷ rounds) h = after_silence (heard_sound fd rounds h)
heard_sound fd (ready rs ∷ rounds) h = elim (Bool-cases (answered fd rs)) [
  | inl e ↦ at_once (answered_sound fd rs e)
  | inr e ↦ after_others (heard_sound fd rounds (rw e at h))
]

heard_complete : (fd : ℕ) (rounds : List Round) → InTime fd rounds → heard fd rounds ≡ true
unfolding heard
heard_complete fd [] k = elim k [ ]
heard_complete fd (expired ∷ rounds) k = elim k [ ]
heard_complete fd (ready rs ∷ rounds) (at_once k) = ground (arith, answered_complete fd rs k)
heard_complete fd (silent ∷ rounds) (after_silence k) = heard_complete fd rounds k
heard_complete fd (ready rs ∷ rounds) (after_others k) = ground (arith, heard_complete fd rounds k)

wait_acks-heard :
    (fd : ℕ) (pending : List ℕ) (rounds : List Round)
    → is_in fd (wait_acks pending rounds) ≡ (is_in fd pending && not (heard fd rounds))
unfolding wait_acks heard
wait_acks-heard fd [] rounds = unfold is_in in refl
wait_acks-heard fd (x ∷ xs) [] = ground arith
wait_acks-heard fd (x ∷ xs) (expired ∷ rounds) = ground arith
wait_acks-heard fd (x ∷ xs) (silent ∷ rounds) = wait_acks-heard fd (x ∷ xs) rounds
wait_acks-heard fd (x ∷ xs) (ready rs ∷ rounds) =
    ground (arith, wait_acks-heard fd (collect (x ∷ xs) rs) rounds, is_in-collect fd (x ∷ xs) rs)

-- A descriptor is left when the wait ends exactly if the wait began with it and it did not answer in
-- time: before the deadline it neither hung up nor sent something with the word of the ack in it.
pub wait_acks_left :
    (fd : ℕ) (pending : List ℕ) (rounds : List Round)
    → (is_in fd (wait_acks pending rounds) ≡ true)
      ↔ ((is_in fd pending ≡ true) × ¬ InTime fd rounds)
wait_acks_left fd pending rounds =
    let left = wait_acks-heard fd pending rounds in
    (
      (λ e. (
        ground (arith, e, left),
        λ k.
            let answers_there = heard_complete fd rounds k in
            let gone : is_in fd (wait_acks pending rounds) ≡ false =
              ground (arith, left, answers_there) in
            cc (gone, e),
      )),
      (λ h. elim (Bool-cases (heard fd rounds)) [
        | inl x ↦ absurd (h.1 (heard_sound fd rounds x))
        | inr x ↦ rw (left, h.0, x) refl
      ]),
    )
