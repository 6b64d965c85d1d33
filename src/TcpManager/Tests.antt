-- ===== src/TcpManager/Tests.antt =====
-- A table of two connections, and a listening manager.
use oven_web_rtctester.Prelude.{ℕ, ◌+◌, ◌≡◌, refl, true, false, some, List, [], ◌∷◌, arith}
use oven_web_rtctester.Prelude.Int.{ℤ, pos, minus_one}
use oven_web_rtctester.Prelude.Map.{lookup, IsMap}
use oven_web_rtctester.TcpManager.{
  Connection, TcpManager, search, wrapped_key, next_key, Start, place_object, insert_object,
  is_connected,
}
use oven_web_rtctester.TcpManager.Keys.{Taken, Taken-more, insert_object-Inserted}
use oven_web_rtctester.TcpManager.Account.{
  Call, inserts, removes, removes_list, run, held, starts_of, closes_of, run-Accounts,
}
use oven_web_rtctester.TcpManager.Valid.{Valid, some_has, is_connected-some_has}
use oven_web_rtctester.TcpManager.Accept.{accepting, Acceptor, World}
use oven_web_rtctester.TcpManager.Accept.Sockets.{Ends}
use oven_web_rtctester.TcpManager.Accept.History.{
  run as run_accepting, Event, completes, releases, run-Ends,
}

abbrev connection : ℕ → ℤ → Connection
connection object key = record {
  object = object;
  own_key = key;
  remote_ip = 16777343;
  remote_port = 80 + object;
}

abbrev sound : Start
sound = record {
  start_succeeds = true;
  is_opened = true;
  keepalive_check = true;
  keepalive_check_time = 5;
}

abbrev closed_socket : Start
closed_socket = record sound { is_opened = false }

abbrev two : TcpManager
two = record {
  index_key = 3;
  max_createing_count = 2;
  network_info_map = (pos 3, connection 7 (pos 3)) ∷ (pos 4, connection 8 (pos 4)) ∷ [];
}

-- the last key is in use and the counter stands on it
abbrev last_used : TcpManager
last_used = record {
  index_key = 1999999999;
  max_createing_count = 1;
  network_info_map = (pos 1999999999, connection 7 (pos 1999999999)) ∷ [];
}

two-IsMap : IsMap two.network_info_map
two-IsMap = (refl, tt)

two-Valid : Valid two
two-Valid = (two-IsMap, ((refl, omega arith), ((refl, omega arith), tt)), omega arith)

insert_object-Inserted_example :
    lookup (pos 5) (insert_object sound (some (connection 9 minus_one)) two).0.network_info_map
    ≡ some (connection 9 (pos 5))
unfolding insert_object wrapped_key next_key search place_object lookup
insert_object-Inserted_example =
    (insert_object-Inserted sound (connection 9 minus_one) two two-IsMap).2 (pos 5)

three_four : Taken 3 5 two.network_info_map
unfolding lookup
three_four = Taken-more 3 5 two.network_info_map (connection 7 (pos 3)) refl (
    Taken-more 4 5 two.network_info_map (connection 8 (pos 4)) refl
      (λ j low high. absurd (omega arith)))

abbrev calls : List Call
calls =
    inserts sound (some (connection 9 minus_one))
    ∷ inserts closed_socket (some (connection 10 minus_one))
    ∷ removes (pos 3)
    ∷ removes_list (pos 4 ∷ pos 77 ∷ [])
    ∷ []

run-Accounts_example :
    closes_of 10 (run calls two).1 + held 10 (run calls two).0.network_info_map
    ≡ starts_of 10 (run calls two).1 + held 10 two.network_info_map
run-Accounts_example = run-Accounts 10 calls two

is_connected-some_has_example : is_connected 16777343 88 two ≡ true
unfolding some_has
is_connected-some_has_example = is_connected-some_has 16777343 88 two two-Valid

abbrev listening : Acceptor
listening = record {
  is_support_ssl = true;
  is_closeing = false;
  has_acceptor = true;
  accept_socket = some 4;
  next_socket = 5;
  pending = accepting;
}

abbrev takes_it : World
takes_it = record {
  error = false;
  has_callback = true;
  remote_endpoint = some (16777343, 3333);
  takes = true;
  listens = true;
}

abbrev fails : World
fails = record takes_it { error = true }

abbrev history : List Event
history =
    completes takes_it ∷ completes takes_it ∷ completes fails ∷ releases ∷ completes takes_it ∷ []

run-Ends_example : Ends listening (run_accepting history listening)
run-Ends_example = run-Ends history listening (ground arith) tt
