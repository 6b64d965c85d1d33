-- ===== src/Config/Tests.antt =====
-- Tests and instances for the configuration parser.
use oven_web_rtctester.Prelude.{◌≡◌, refl, true, some, [], ◌∷◌, map, arith}
use oven_web_rtctester.Prelude.Bytes.{ascii}
use oven_web_rtctester.Prelude.Outcome.{done}
use oven_web_rtctester.Config.{
  ConfigItem, get_token_start, get_token_end, split_and_parse_line, load_file, query_value,
}
use oven_web_rtctester.Config.Lines.{print, query-load_file}

abbrev port : ConfigItem
port = record { name = ascii "port"; value = ascii "3333" }

abbrev host : ConfigItem
host = record { name = ascii "host"; value = ascii "ome" }

abbrev other_port : ConfigItem
other_port = record { name = ascii "port"; value = ascii "80" }

-- a line that is meant as a comment is a setting
comment_is_read :
    split_and_parse_line (ascii ";port 3333")
    ≡ some (record { name = ascii ";port"; value = ascii "3333" })
unfolding split_and_parse_line get_token_start get_token_end
comment_is_read = refl

query-load_file_example :
    (load_file (ascii "a") (some (map print (host ∷ port ∷ other_port ∷ []))) []
      ≡ done (host ∷ port ∷ other_port ∷ [], true))
    × (query_value (ascii "port") (host ∷ port ∷ other_port ∷ []) ≡ some (ascii "3333"))
query-load_file_example =
    query-load_file b'a' [] [] (host ∷ []) (other_port ∷ []) port (ground arith) (ground arith)
