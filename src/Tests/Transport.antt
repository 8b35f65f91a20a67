-- ===== src/Tests/Transport.antt =====
-- The laws of the line buffer, of the messages and of the configuration at concrete inputs.
use draind.Base.{
  ◌≡◌, refl, List, [], ◌∷◌, ◌++◌, Text, codes, map, pos, ok, some, arith, true, text_eq, text_ltb,
  to_int,
}
use draind.Json.Value.{Value, null, bool, str, num, insert, find, index, has, get_array, get_string}
use draind.Json.Printer.{dump}
use draind.Json.Parser.{parse, parse_string}
use draind.Socket.{WriteResult, wrote, interrupted, write_line, extract}
use draind.Socket.Lines.{feed_all, concat, feed_all-extract}
use draind.Socket.Write.{Sent, write_line-Sent}
use draind.Protocol.{decode}
use draind.Protocol.Channel.{written, channel_delivers}
use draind.Config.{load_config, Config, read_profiles, read_profile, finish_config}
use draind.Tests.Json.{no_floats}

-- Two lines and the beginning of a third.
abbrev stream : Text
stream = codes "ab" ++ 10 ∷ 10 ∷ codes "c"

feed_all-extract_example :
    feed_all (codes "x") (codes "ab" ∷ (10 ∷ codes "c") ∷ [])
    ≡ extract (codes "x" ++ concat (codes "ab" ∷ (10 ∷ codes "c") ∷ []))
feed_all-extract_example =
    feed_all-extract (codes "ab" ∷ (10 ∷ codes "c") ∷ []) (codes "x") (omega arith, tt)

write_line-Sent_example :
    Sent
      (write_line (codes "abc") (wrote 2 ∷ interrupted ∷ wrote 2 ∷ [])).0
      (codes "abc" ++ 10 ∷ [])
      (write_line (codes "abc") (wrote 2 ∷ interrupted ∷ wrote 2 ∷ [])).1
write_line-Sent_example = write_line-Sent (codes "abc") (wrote 2 ∷ interrupted ∷ wrote 2 ∷ [])

-- Two values, each written in one piece, that arrive in three.
abbrev values : List Value
values = null ∷ bool true ∷ []

abbrev writes : List (Text × List WriteResult)
writes = (codes "null", wrote 9 ∷ []) ∷ (codes "true", wrote 2 ∷ wrote 3 ∷ []) ∷ []

abbrev arrivals : List Text
arrivals = codes "nu" ∷ (codes "ll" ++ 10 ∷ codes "tr") ∷ (codes "ue" ++ 10 ∷ []) ∷ []

channel_delivers_example :
    (map (decode no_floats) (feed_all [] arrivals).0 ≡ map ok values)
    × ((feed_all [] arrivals).1 ≡ [])
unfolding dump write_line concat written
channel_delivers_example =
    channel_delivers no_floats (λ x. tt) values writes arrivals (tt, (tt, tt)) refl
      (refl, (refl, tt)) refl

abbrev config_text : Text
config_text = codes "{\"profiles\":[{\"name\":\"home\"}]}"

-- The configuration that is read from the text.
abbrev loaded : Config
loaded = record {
  active_profile = codes "home";
  profiles =
      record {
        name = codes "home";
        cpu_governor = [];
        cpu_epp = [];
        brightness_percent = pos 100;
        dim_brightness_percent = pos 20;
        dim_timeout = pos 300;
        sleep_timeout = pos 600;
        lid_close_action = codes "suspend";
        power_button_action = codes "poweroff";
        sleep_button_action = codes "suspend";
      }
      ∷ [];
}

load_loaded : load_config no_floats (codes "draind.json") (some config_text) ≡ ok loaded
unfolding load_config parse parse_string text_eq text_ltb read_profiles get_array index find insert
    read_profile str has get_string finish_config to_int num
load_loaded = refl
