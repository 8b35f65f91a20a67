-- ===== src/Socket/Open.antt =====
-- The sockets that src/shared/socket.cpp opens: the calls of the kernel, in order. What the kernel
-- answers to them is an argument.
use draind.Base.{
  ℕ, suc, Bool, Option, none, some, List, [], ◌∷◌, ◌++◌, Text, ◌==◌, take, if◌then◌else◌,
}

pub data SocketCall : Type 0 where
  mkdir unlink chmod : Text → SocketCall
  bind connect : ℕ → Text → SocketCall
  listen set_nonblocking close : ℕ → SocketCall

-- The descriptor that `socket` returns, whether `bind` or `connect` succeeds, and whether `listen` does.
pub record SocketAnswers : Type 0 where
  pub descriptor : Option ℕ
  pub bound : Bool
  pub listens : Bool

-- `s.c_str()` as the kernel reads it: up to the first zero byte.
unfoldable pub c_str : Text → Text
c_str [] = []
c_str (c ∷ s) = let rest = c_str s in if c == 0 then [] else c ∷ rest

-- The loop of `mkdir_p` behind the front of the path.
unfoldable pub mkdir_from : Text → Text → List SocketCall
mkdir_from front [] = []
mkdir_from front (c ∷ s) =
    let rest = mkdir_from (front ++ c ∷ []) s in
    if c == b'/' then mkdir (c_str front) ∷ rest else rest

-- `mkdir_p`: the first byte is not looked at.
unfoldable pub mkdir_p : Text → List SocketCall
mkdir_p [] = []
mkdir_p (c ∷ s) = mkdir_from (c ∷ []) s

-- `path.rfind('/')`.
unfoldable pub rfind_slash : Text → Option ℕ
rfind_slash [] = none
rfind_slash (c ∷ s) = elim (rfind_slash s) [
  | none ↦ if c == b'/' then some 0 else none
  | some i ↦ some (suc i)
]

-- The directories in front of the socket.
unfoldable pub parent_dirs : Text → List SocketCall
unfolding mkdir_p rfind_slash
parent_dirs path = elim (rfind_slash path) [ none ↦ [] | some i ↦ mkdir_p (take (suc i) path) ]

-- `addr.sun_path`: the copy leaves room for a zero byte at its end, of 108 in all.
unfoldable pub sun_path : Text → Text
unfolding c_str
sun_path path = take 107 (c_str path)

-- What `listen_unix` does with its socket.
unfoldable pub bind_and_listen : SocketAnswers → Text → ℕ → Option ℕ × List SocketCall
unfolding sun_path
bind_and_listen k path fd =
    if k.bound
    then (if k.listens
        then (some fd, bind fd (sun_path path) ∷ chmod (c_str path) ∷ listen fd ∷ [])
        else (none, bind fd (sun_path path) ∷ chmod (c_str path) ∷ listen fd ∷ close fd ∷ []))
    else (none, bind fd (sun_path path) ∷ close fd ∷ [])

-- `listen_unix`, with `none` for the result -1.
unfoldable pub listen_unix : SocketAnswers → Text → Option ℕ × List SocketCall
unfolding parent_dirs bind_and_listen
listen_unix k path = elim k.descriptor [
  | none ↦ (none, parent_dirs path ++ unlink (c_str path) ∷ [])
  | some fd ↦
      let (result, calls) = bind_and_listen k path fd in
      (result, parent_dirs path ++ unlink (c_str path) ∷ calls)
]

unfoldable pub connect_unix : SocketAnswers → Text → Option ℕ × List SocketCall
unfolding sun_path
connect_unix k path = elim k.descriptor [
  | none ↦ (none, [])
  | some fd ↦
      if k.bound
      then (some fd, connect fd (sun_path path) ∷ set_nonblocking fd ∷ [])
      else (none, connect fd (sun_path path) ∷ close fd ∷ [])
]
