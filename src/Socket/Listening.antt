-- ===== src/Socket/Listening.antt =====
-- What src/shared/socket.cpp leaves behind of a socket, and the directories that it makes first.
use draind.Base.{
  ℕ, suc, ◌≡◌, refl, ap, sym, ◌∙◌, Bool-cases, inl, inr, Option, Option-cases, none, some,
  some-injective, List, [], ◌∷◌, ◌++◌, append_assoc, append-nil, Text, ◌==◌, take, arith,
  if◌then◌else◌,
}
use draind.Socket.Open.{
  SocketCall, mkdir, unlink, chmod, bind, connect, listen, set_nonblocking, close, SocketAnswers,
  c_str, mkdir_from, mkdir_p, rfind_slash, parent_dirs, sun_path, bind_and_listen, listen_unix,
  connect_unix,
}

mkdir_from-rfind_none : (front s : Text) → rfind_slash s ≡ none → mkdir_from front s ≡ []
unfolding mkdir_from rfind_slash
mkdir_from-rfind_none front [] h = refl
mkdir_from-rfind_none front (c ∷ s) h = elim (Option-cases (rfind_slash s)) [
  | inl e ↦ elim (Bool-cases (c == b'/')) [
    | inl b ↦ ground (arith, rw (e, b) at h)
    | inr b ↦ rw b (mkdir_from-rfind_none (front ++ c ∷ []) s e)
  ]
  | inr (i, e) ↦ ground (arith, rw e at h)
]

-- Behind its last slash a path names no directory.
mkdir_from-take :
    (front s : Text) (i : ℕ)
    → rfind_slash s ≡ some i
    → mkdir_from front (take (suc i) s) ≡ mkdir_from front s
unfolding mkdir_from rfind_slash
mkdir_from-take front [] i h = ground arith
mkdir_from-take front (c ∷ s) i h = elim (Option-cases (rfind_slash s)) [
  | inl e ↦ elim (Bool-cases (c == b'/')) [
    | inl b ↦
        let first : 0 ≡ i = some-injective _ _ (rw (e, b) at h) in
        rw (sym first, mkdir_from-rfind_none (front ++ c ∷ []) s e) refl
    | inr b ↦ ground (arith, rw (e, b) at h)
  ]
  | inr (j, e) ↦
      let later : suc j ≡ i = some-injective _ _ (rw e at h) in
      rw (sym later, mkdir_from-take (front ++ c ∷ []) s j e) refl
]

parent_dirs-mkdir_p : (path : Text) → parent_dirs path ≡ mkdir_p path
unfolding parent_dirs mkdir_p rfind_slash mkdir_from
parent_dirs-mkdir_p [] = refl
parent_dirs-mkdir_p (c ∷ s) = elim (Option-cases (rfind_slash s)) [
  | inl e ↦ elim (Bool-cases (c == b'/')) [
    | inl b ↦ rw (parent_dirs, rfind_slash, e, b, mkdir_from-rfind_none (c ∷ []) s e) refl
    | inr b ↦ rw (parent_dirs, rfind_slash, e, b, mkdir_from-rfind_none (c ∷ []) s e) refl
  ]
  | inr (i, e) ↦ rw (parent_dirs, rfind_slash, e, mkdir_from-take (c ∷ []) s i e) refl
]

-- The calls hold a `mkdir` of the text.
abbrev Makes : Text → List SocketCall → Type 0
Makes dir calls =
    (before : List SocketCall) × (after : List SocketCall) × (calls
      ≡ before ++ mkdir (c_str dir) ∷ after)

mkdir_from-Makes : (front d rest : Text) → Makes (front ++ d) (mkdir_from front (d ++ b'/' ∷ rest))
unfolding mkdir_from
mkdir_from-Makes front [] rest = (
  [],
  mkdir_from (front ++ b'/' ∷ []) rest,
  ap (λ t. mkdir (c_str t) ∷ mkdir_from (front ++ b'/' ∷ []) rest) (sym (append-nil front)),
)
mkdir_from-Makes front (c ∷ d) rest =
    let (before, after, e) = mkdir_from-Makes (front ++ c ∷ []) d rest in
    let same = e ∙ ap (λ t. before ++ mkdir (c_str t) ∷ after) (append_assoc front (c ∷ []) d) in
    elim (Bool-cases (c == b'/')) [
      | inl b ↦ (mkdir (c_str front) ∷ before, after, rw b (ap (λ t. mkdir (c_str front) ∷ t) same))
      | inr b ↦ (before, after, rw b same)
    ]

bind_and_listen-bind :
    (k : SocketAnswers) (path : Text) (fd : ℕ)
    → (after : List SocketCall) × ((bind_and_listen k path fd).1 ≡ bind fd (sun_path path) ∷ after)
unfolding bind_and_listen
bind_and_listen-bind k path fd = elim (Bool-cases k.bound) [
  | inl b ↦ elim (Bool-cases k.listens) [
    | inl l ↦ (chmod (c_str path) ∷ listen fd ∷ [], rw (b, l) refl)
    | inr l ↦ (chmod (c_str path) ∷ listen fd ∷ close fd ∷ [], rw (b, l) refl)
  ]
  | inr b ↦ (close fd ∷ [], rw b refl)
]

-- Calls around two of them, put in the order in which they stand.
two_in_order :
    (dirs before between after rest : List SocketCall) (a u z : SocketCall)
    → dirs ≡ before ++ a ∷ between
    → rest ≡ z ∷ after
    → dirs ++ u ∷ rest ≡ before ++ a ∷ ((between ++ u ∷ []) ++ z ∷ after)
two_in_order dirs before between after rest a u z p q =
    ap (λ t. t ++ u ∷ rest) p
    ∙ ap (λ t. (before ++ a ∷ between) ++ u ∷ t) q
    ∙ append_assoc before (a ∷ between) (u ∷ z ∷ after)
    ∙ ap (λ t. before ++ a ∷ t) (sym (append_assoc between (u ∷ []) (z ∷ after)))

listen_unix-some :
    (k : SocketAnswers) (path : Text) (fd : ℕ)
    → k.descriptor ≡ some fd
    → (listen_unix k path).1
      ≡ parent_dirs path ++ unlink (c_str path) ∷ (bind_and_listen k path fd).1
unfolding listen_unix
listen_unix-some k path fd h = rw h refl

-- The path of a socket in a directory: no slash ends the empty text.
abbrev in_dir : ℕ → Text → Text → Text
in_dir c dir name = c ∷ dir ++ b'/' ∷ name

-- Where the kernel gives a socket, `listen_unix` makes each directory that a slash of the path ends,
-- but for the root, before it binds the socket to the path.
pub listen_unix-Makes :
    (k : SocketAnswers) (c fd : ℕ) (dir name : Text)
    → k.descriptor ≡ some fd
    → (before : List SocketCall) × (between : List SocketCall) × (after : List SocketCall)
      × ((listen_unix k (in_dir c dir name)).1
          ≡ before
            ++ mkdir (c_str (c ∷ dir))
              ∷ (between ++ bind fd (sun_path (in_dir c dir name)) ∷ after))
unfolding mkdir_p
listen_unix-Makes k c fd dir name h =
    let path = in_dir c dir name in
    let (before, between, made) = mkdir_from-Makes (c ∷ []) dir name in
    let (after, binds) = bind_and_listen-bind k path fd in
    (
      before,
      between ++ unlink (c_str path) ∷ [],
      after,
      listen_unix-some k path fd h
          ∙ two_in_order _ before between after _ _ _ _ (parent_dirs-mkdir_p path ∙ made) binds,
    )

closed : Option ℕ → ℕ → Option ℕ
closed none n = none
closed (some fd) n = if fd == n then none else some fd

-- The descriptor that is open behind the calls, out of the one that was open before.
pub left_open : Option ℕ → List SocketCall → Option ℕ
unfolding closed
left_open fd [] = fd
left_open fd (close n ∷ calls) = left_open (closed fd n) calls
left_open fd (mkdir t ∷ calls) = left_open fd calls
left_open fd (unlink t ∷ calls) = left_open fd calls
left_open fd (chmod t ∷ calls) = left_open fd calls
left_open fd (bind n t ∷ calls) = left_open fd calls
left_open fd (connect n t ∷ calls) = left_open fd calls
left_open fd (listen n ∷ calls) = left_open fd calls
left_open fd (set_nonblocking n ∷ calls) = left_open fd calls

left_open-mkdir_from :
    (fd : Option ℕ) (front s : Text) (calls : List SocketCall)
    → left_open fd (mkdir_from front s ++ calls) ≡ left_open fd calls
unfolding left_open mkdir_from
left_open-mkdir_from fd front [] calls = refl
left_open-mkdir_from fd front (c ∷ s) calls = elim (Bool-cases (c == b'/')) [
  | inl b ↦ rw b (left_open-mkdir_from fd (front ++ c ∷ []) s calls)
  | inr b ↦ rw b (left_open-mkdir_from fd (front ++ c ∷ []) s calls)
]

left_open-parent_dirs :
    (fd : Option ℕ) (path : Text) (calls : List SocketCall)
    → left_open fd (parent_dirs path ++ calls) ≡ left_open fd calls
unfolding mkdir_p
left_open-parent_dirs fd [] calls = rw (parent_dirs-mkdir_p []) refl
left_open-parent_dirs fd (c ∷ s) calls =
    rw (parent_dirs-mkdir_p (c ∷ s)) (left_open-mkdir_from fd (c ∷ []) s calls)

closed_own : (fd : ℕ) → closed (some fd) fd ≡ none
unfolding closed
closed_own fd = ground arith

left_open-bind_and_listen :
    (k : SocketAnswers) (path : Text) (fd : ℕ)
    → left_open (some fd) (bind_and_listen k path fd).1 ≡ (bind_and_listen k path fd).0
unfolding left_open bind_and_listen
left_open-bind_and_listen k path fd = elim (Bool-cases k.bound) [
  | inl b ↦ elim (Bool-cases k.listens) [
    | inl l ↦ rw (b, l) refl
    | inr l ↦ rw (b, l) (closed_own fd)
  ]
  | inr b ↦ rw b (closed_own fd)
]

-- Whatever the kernel answers, the descriptor that is open in the end is the one that `listen_unix`
-- and `connect_unix` return, and none where they fail.
pub opened_is_returned :
    (k : SocketAnswers) (path : Text)
    → (left_open k.descriptor (listen_unix k path).1 ≡ (listen_unix k path).0)
      × (left_open k.descriptor (connect_unix k path).1 ≡ (connect_unix k path).0)
unfolding listen_unix connect_unix left_open
opened_is_returned k path = elim (Option-cases k.descriptor) [
  | inl e ↦ (rw e (left_open-parent_dirs none path (unlink (c_str path) ∷ [])), rw e refl)
  | inr (fd, e) ↦ (
    rw e (
        left_open-parent_dirs (some fd) path (unlink (c_str path) ∷ (bind_and_listen k path fd).1)
        ∙ left_open-bind_and_listen k path fd),
    elim (Bool-cases k.bound) [ inl b ↦ rw (e, b) refl | inr b ↦ rw (e, b) (closed_own fd) ],
  )
]
