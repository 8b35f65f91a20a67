-- ===== src/Ctl/Listing.antt =====
-- A request of `draindctl` (src/ctl/main.cpp) from its arguments over the daemon (src/daemon/daemon.cpp)
-- to what is printed.
use draind.Base.{
  ℕ, ◌≡◌, refl, ap, ◌∙◌, true, some, none, List, [], ◌∷◌, ◌++◌, map, Text, codes, text_eq, text_ltb,
  done,
}
use draind.Json.Value.{
  Value, Floats, assign, insert, get_object, array, flag, index, find, has, get_array, get_bool,
  get_string, str,
}
use draind.Json.Exact.{AreExact}
use draind.Json.OneLine.{IsLine}
use draind.Socket.Lines.{concat}
use draind.Config
use draind.Config.{Profile}
use draind.Manager
use draind.Protocol.{encode_ctl, encode_ctl_reply}
use draind.Protocol.Messages.{decode-encode_ctl}
use draind.Daemon.State.{Daemon, Env, send}
use draind.Daemon.Control.{on_ctl, profile_names, reply_ok, reply_error, reply, set_profile}
use draind.Daemon.Loop.{on_line, dispatch}
use draind.Daemon.Lines.{on_line-dispatch}
use draind.Ctl.{
  Command, list_profiles, chunk, on_reply, exchange, request, line, lines_of, print_reply,
}
use draind.Ctl.Exchange.{exchange-reply}

-- The names, each on a line.
unfoldable pub name_lines : List Profile → Text
name_lines [] = []
name_lines (p ∷ ps) = line p.name ++ name_lines ps

lines_of-profile_names : (ps : List Profile) → lines_of (profile_names ps) ≡ name_lines ps
unfolding lines_of profile_names name_lines get_string
lines_of-profile_names [] = refl
lines_of-profile_names (p ∷ ps) = ap (λ s. line p.name ++ s) (lines_of-profile_names ps)

profile_names-AreExact : (ps : List Profile) → AreExact (profile_names ps)
unfolding profile_names
profile_names-AreExact [] = tt
profile_names-AreExact (p ∷ ps) = (tt, profile_names-AreExact ps)

module _ (fl : Floats) (printable : (x : ℕ) → IsLine (fl.print_g x)) (env : Env) (d : Daemon)
    (fd : ℕ) (socket error : Text) where
  -- A request is the command that the daemon carries out.
  pub on_line-request :
      (cmd profile : Text)
      → (v : Value) × (on_line fl env d fd (encode_ctl fl cmd profile) ≡ on_ctl fl env d fd v)
        × (str v (codes "cmd") [] ≡ cmd)
        × (str v (codes "profile") [] ≡ profile)
  unfolding dispatch text_eq
  on_line-request cmd profile =
      let (v, e, t, c, p) = decode-encode_ctl fl cmd profile in
      (v, on_line-dispatch fl env d fd (encode_ctl fl cmd profile) v e ∙ rw t refl, c, p)

  -- The daemon answers list-profiles with one line, and `draindctl` that gets this line, cut in any
  -- way, prints the names of the profiles in their order, one on a line, and exits with 0.
  pub list_profiles_prints :
      (cs : List Text)
      → let answer = encode_ctl_reply fl (
          assign
            (reply_ok true)
            (codes "profiles")
            (array (profile_names d.manager.config.profiles))) in
        concat cs ≡ answer ++ 10 ∷ []
        → (on_line fl env d fd (request fl list_profiles) ≡ done (send d fd answer))
          × (exchange fl socket list_profiles (some (map chunk cs)) error
              ≡ record { code = 0; out = name_lines d.manager.config.profiles; errors = [] })
  unfolding request on_ctl reply text_eq text_ltb assign insert get_object on_reply print_reply flag
      has index find get_bool get_array
  list_profiles_prints cs e =
      let (v, p, c, n) = on_line-request (codes "list_profiles") [] in
      let exact = profile_names-AreExact d.manager.config.profiles in
      let printed = lines_of-profile_names d.manager.config.profiles in
      (
        p ∙ rw c refl,
        exchange-reply fl printable socket error list_profiles _ cs
              ((refl, (refl, tt)), tt, ((refl, tt), exact, (tt, tt, tt))) e
            ∙ rw printed refl,
      )

  -- A profile that the configuration does not name changes nothing: the daemon answers with an
  -- error, and `draindctl`, however that line is cut, prints it and exits with 4.
  pub unknown_profile_fails :
      (name : Text) (cs : List Text)
      → Config.find d.manager.config name ≡ none
      → let answer = encode_ctl_reply fl (reply_error (codes "profile not found: " ++ name)) in
        concat cs ≡ answer ++ 10 ∷ []
        → (on_line fl env d fd (request fl (Command.set_profile name)) ≡ done (send d fd answer))
          × (exchange fl socket (Command.set_profile name) (some (map chunk cs)) error ≡ record {
            code = 4;
            out = [];
            errors = line (codes "error: " ++ (codes "profile not found: " ++ name));
          })
  unfolding request on_ctl reply set_profile text_eq text_ltb assign insert get_object on_reply flag
      has index find get_bool get_string str draind.Manager.set_active
  unknown_profile_fails name cs h e =
      let not_found : Manager.set_active fl d.manager name ≡ none =
        rw (Manager.set_active, h) refl in
      let (v, p, c, n) = on_line-request (codes "set_profile") name in
      (
        p ∙ rw (c, n, not_found) refl,
        exchange-reply fl printable socket error (Command.set_profile name) _ cs
            ((refl, (refl, tt)), tt, ((refl, tt), tt, (tt, tt, tt))) e,
      )
