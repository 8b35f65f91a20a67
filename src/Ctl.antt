-- ===== src/Ctl.antt =====
-- src/ctl/main.cpp: `draindctl`, its arguments, its request, and what it prints of the reply.
pub mod Exchange
pub mod Listing
pub mod SetProfile
pub mod WhileDimmed
use draind.Base.{
  ℕ, Bool, true, false, ◌&&◌, ◌||◌, Option, none, some, List, [], ◌∷◌, ◌++◌, Text, codes, is_empty,
  text_eq, ℤ, pos, negsuc, to_int, leb_ℤ, ◌/ℤ◌, ◌%ℤ◌, Result, ok, err, out_of_fuel, if◌then◌else◌,
}
use draind.Json.Value.{
  Value, Items, nil, cons, Floats, str, num, flag, index, get_array, get_string,
}
use draind.Json.Number.{to_string}
use draind.Json.Parser.{parse}
use draind.Socket.{cut_line}
use draind.Protocol.{encode_ctl}

-- How the program ends: its exit code and what it printed to each stream.
pub record End : Type 0 where
  pub code : ℕ
  pub out : Text
  pub errors : Text

-- A text and a line break.
abbrev pub line : Text → Text
line s = s ++ 10 ∷ []

unfoldable pub usage : Text → Text
usage argv0 =
    line (codes "Usage:")
    ++ (line (codes "  " ++ (argv0 ++ codes " status"))
        ++ (line (codes "  " ++ (argv0 ++ codes " battery"))
            ++ (line (codes "  " ++ (argv0 ++ codes " list-profiles"))
                ++ (line (codes "  " ++ (argv0 ++ codes " list-inhibitors"))
                    ++ (line (codes "  " ++ (argv0 ++ codes " set-profile <name>"))
                        ++ (line (codes "  " ++ (argv0 ++ codes " reload-config"))
                            ++ (line (codes "  " ++ (argv0 ++ codes " lock"))
                                ++ (10 ∷ line (codes "Options:")
                                    ++ line (codes "  -s <socket>    override socket path")))))))))

-- What the arguments ask for.
pub data Command : Type 0 where
  status battery list_profiles list_inhibitors reload_config lock : Command
  set_profile : Text → Command

-- What the arguments come to: a command for the daemon at a socket, or an end.
pub data Arguments : Type 0 where
  asks : Text → Command → Arguments
  ends : End → Arguments

-- An end without output.
abbrev pub failed : ℕ → Text → End
failed code errors = record { code = code; out = []; errors = errors }

-- The name behind set-profile; what stands behind it is not looked at.
unfoldable pub read_name : Text → List Text → Arguments
read_name socket [] = ends (failed 1 (line (codes "set-profile requires <name>")))
read_name socket (name ∷ args) = asks socket (set_profile name)

-- `main` from the command on.
unfoldable pub read_command : Text → Text → List Text → Arguments
unfolding read_name usage
read_command argv0 socket [] = ends (failed 1 (usage argv0))
read_command argv0 socket (cmd ∷ args) =
    if text_eq cmd (codes "status")
    then asks socket status
    else if text_eq cmd (codes "battery")
    then asks socket battery
    else if text_eq cmd (codes "list-profiles")
    then asks socket list_profiles
    else if text_eq cmd (codes "set-profile")
    then read_name socket args
    else if text_eq cmd (codes "reload-config")
    then asks socket reload_config
    else if text_eq cmd (codes "list-inhibitors")
    then asks socket list_inhibitors
    else if text_eq cmd (codes "lock")
    then asks socket lock
    else ends (failed 1 (line (codes "unknown command: " ++ cmd) ++ usage argv0))

-- The loop over the options in front of it.
unfoldable pub read_args : Text → Text → List Text → Arguments
unfolding read_command
read_args argv0 socket [] = read_command argv0 socket []
read_args argv0 socket (a ∷ []) = read_command argv0 socket (a ∷ [])
read_args argv0 socket (a ∷ v ∷ args) =
    let more = read_args argv0 v args in
    if text_eq a (codes "-s") then more else read_command argv0 socket (a ∷ v ∷ args)

-- What `poll` and `read` give: nothing in time, some bytes, or the end of the stream.
pub data Arrival : Type 0 where
  late closed : Arrival
  chunk : Text → Arrival

-- The loop of `recv_line`; arrivals that end are a wait that ends.
unfoldable pub receive : Text → List Arrival → Text
unfolding cut_line
receive acc [] = acc
receive acc (late ∷ arrivals) = acc
receive acc (closed ∷ arrivals) = acc
receive acc (chunk s ∷ arrivals) =
    let more = receive (acc ++ s) arrivals in
    elim (cut_line (acc ++ s)) [ none ↦ more | some (l, r) ↦ acc ++ s ]

-- The text in front of the first line break, or all of it.
unfoldable pub recv_line : List Arrival → Text
unfolding receive cut_line
recv_line arrivals = elim (cut_line (receive [] arrivals)) [
  | none ↦ receive [] arrivals
  | some (l, r) ↦ l
]

-- One line for each text of a reply.
unfoldable pub lines_of : Items → Text
lines_of nil = []
lines_of (cons v vs) = line (get_string v) ++ lines_of vs

-- The line for a time of at least zero minutes.
unfoldable pub time_line : Text → ℤ → Text
time_line label t =
    if leb_ℤ (pos 0) t
    then label ++ (to_string (t /ℤ 60) ++ (codes "h " ++ (to_string (t %ℤ 60) ++ line (codes "m"))))
    else []

module _ (fl : Floats) where
  unfoldable pub request : Command → Text
  request status = encode_ctl fl (codes "status") []
  request battery = encode_ctl fl (codes "battery") []
  request list_profiles = encode_ctl fl (codes "list_profiles") []
  request (set_profile name) = encode_ctl fl (codes "set_profile") name
  request reload_config = encode_ctl fl (codes "reload_config") []
  request list_inhibitors = encode_ctl fl (codes "list_inhibitors") []
  request lock = encode_ctl fl (codes "lock") []

  unfoldable pub print_status : Value → Text
  print_status resp =
      let pct = to_int (num fl resp (codes "battery_percent") (negsuc 0)) in
      line (codes "profile:        " ++ str resp (codes "active_profile") [])
      ++ (line (
            codes "dimmed:         "
            ++ (if flag resp (codes "dimmed") false then codes "yes" else codes "no"))
          ++ (line (codes "active_session: " ++ str resp (codes "active_session") [])
              ++ line (
                  codes "battery:        "
                  ++ (str resp (codes "battery_status") []
                      ++ (if leb_ℤ (pos 0) pct
                          then codes " (" ++ (to_string pct ++ codes "%)")
                          else [])))))

  unfoldable pub print_battery : Value → Text
  unfolding time_line
  print_battery resp =
      line (codes "status:  " ++ str resp (codes "status") [])
      ++ (if flag resp (codes "present") false
          then line (
              codes "percent: "
              ++ (to_string (to_int (num fl resp (codes "percent") (negsuc 0))) ++ codes "%"))
            ++ (time_line (codes "time_to_empty: ")
                  (to_int (num fl resp (codes "time_to_empty_min") (negsuc 0)))
                ++ time_line (codes "time_to_full:  ")
                    (to_int (num fl resp (codes "time_to_full_min") (negsuc 0))))
          else [])

  unfoldable pub print_inhibitors : Items → Text
  unfolding lines_of
  print_inhibitors nil = line (codes "none")
  print_inhibitors (cons v vs) = lines_of (cons v vs)

  -- What is printed of a reply that says ok.
  unfoldable pub print_reply : Command → Value → Text
  unfolding print_status print_battery print_inhibitors lines_of
  print_reply status resp = print_status resp
  print_reply battery resp = print_battery resp
  print_reply list_inhibitors resp = print_inhibitors (get_array (index resp (codes "inhibitors")))
  print_reply list_profiles resp = lines_of (get_array (index resp (codes "profiles")))
  print_reply (set_profile name) resp = line (codes "ok")
  print_reply reload_config resp = line (codes "ok")
  print_reply lock resp = line (codes "ok")

  unfoldable pub on_reply : Command → Value → End
  unfolding print_reply
  on_reply cmd resp =
      if flag resp (codes "ok") false
      then record { code = 0; out = print_reply cmd resp; errors = [] }
      else failed 4 (line (codes "error: " ++ str resp (codes "error") (codes "unknown error")))

  on_parsed : Command → Text → Result Value → End
  unfolding on_reply
  on_parsed cmd received (ok resp) = on_reply cmd resp
  on_parsed cmd received (err e) = failed 3 (line (codes "malformed response: " ++ received))
  on_parsed cmd received out_of_fuel = failed 3 (line (codes "malformed response: " ++ received))

  -- `main` behind the request.
  unfoldable pub on_response : Command → Text → End
  unfolding on_parsed
  on_response cmd received =
      if is_empty received
      then failed 3 (line (codes "no response from daemon"))
      else on_parsed cmd received (parse fl received)

  -- `main` from the connection on; `none` is one that fails, with the text of the error.
  unfoldable pub exchange : Text → Command → Option (List Arrival) → Text → End
  unfolding on_response recv_line
  exchange socket cmd none error =
      failed 2 (line (codes "cannot connect to draind at " ++ (socket ++ (codes ": " ++ error))))
  exchange socket cmd (some arrivals) error = on_response cmd (recv_line arrivals)

  from_arguments : Arguments → (Text → Option (List Arrival)) → Text → End
  unfolding exchange
  from_arguments (ends e) connect error = e
  from_arguments (asks socket cmd) connect error = exchange socket cmd (connect socket) error

  -- `main`, with what comes back from each socket.
  unfoldable pub main : Text → List Text → (Text → Option (List Arrival)) → Text → End
  unfolding from_arguments read_args
  main argv0 args connect error =
      from_arguments (read_args argv0 (codes "/run/draind/draind.sock") args) connect error
