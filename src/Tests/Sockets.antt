-- ===== src/Tests/Sockets.antt =====
-- The opening of sockets at concrete inputs.
use draind.Base.{◌≡◌, refl, true, false, none, some, [], ◌∷◌, codes}
use draind.Protocol
use draind.Server
use draind.Socket.Open.{
  SocketCall, mkdir, unlink, chmod, bind, listen, close, SocketAnswers, listen_unix, connect_unix,
}
use draind.Socket.Listening.{left_open, opened_is_returned}

-- A kernel that binds but does not listen.
abbrev deaf : SocketAnswers
deaf = record { descriptor = some 3; bound = true; listens = false }

deaf-calls :
    (listen_unix deaf Protocol.socket_path).1
    ≡ mkdir (codes "/run")
      ∷ mkdir (codes "/run/draind")
      ∷ unlink (codes "/run/draind/draind.sock")
      ∷ bind 3 (codes "/run/draind/draind.sock")
      ∷ chmod (codes "/run/draind/draind.sock")
      ∷ listen 3
      ∷ close 3
      ∷ []
unfolding listen_unix draind.Socket.Open.mkdir_from
deaf-calls = refl

deaf-init : Server.init deaf Protocol.socket_path ≡ none
unfolding Server.init
deaf-init = refl

opened_is_returned_example :
    (left_open (some 3) (listen_unix deaf Protocol.socket_path).1
      ≡ (listen_unix deaf Protocol.socket_path).0)
    × (left_open (some 3) (connect_unix deaf Protocol.socket_path).1
        ≡ (connect_unix deaf Protocol.socket_path).0)
opened_is_returned_example = opened_is_returned deaf Protocol.socket_path
