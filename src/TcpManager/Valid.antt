-- ===== src/TcpManager/Valid.antt =====
-- The invariant of the table, and the search for a connection by its address.
use oven_web_rtctester.Prelude.{
  ℕ, ◌≤◌, ◌<◌, ◌≡◌, refl, sym, ap, ◌∙◌, inl, inr, Bool, true, false, not, ◌&&◌, Option, none, some,
  List, [], ◌∷◌, ◌==◌, if◌then◌else◌, Bool-cases, Option-cases, All, arith,
}
use oven_web_rtctester.Prelude.Int.{ℤ, pos, negsuc, minus_one, eqb_ℤ, eqb_ℤ_iff, ltb_ℤ}
use oven_web_rtctester.Prelude.Map.{
  Map, lookup, insert, erase, IsMap, Above-IsMap, lookup_head, insert-IsMap, erase-IsMap,
}
use oven_web_rtctester.TcpManager.{
  index_key_max_size, Connection, TcpManager, wrapped_key, next_key, Start, place_object,
  insert_object, find_index_key, is_valid_key, is_connected, find_object, remove_object,
  remove_objects, remove_all,
}
use oven_web_rtctester.TcpManager.Keys.{Tried, wrapped_key_bound, next_key-Tried}
use oven_web_rtctester.TcpManager.Account.{
  Call, inserts, removes, removes_list, removes_all, step, run,
}

abbrev pub InRange : ℤ → Type 0
InRange (pos n) = n < index_key_max_size
InRange (negsuc n) = ⊥

abbrev pub EntryOk : ℤ × Connection → Type 0
EntryOk (key, c) = (c.own_key ≡ key) × InRange key

-- The entries stand in order under distinct keys in range, each connection knows its own key, and
-- the counter is at most the bound.
abbrev pub Valid : TcpManager → Type 0
Valid m =
    IsMap m.network_info_map × All EntryOk m.network_info_map × (m.index_key ≤ index_key_max_size)

insert-All :
    (key : ℤ) (c : Connection) (m : Map Connection)
    → EntryOk (key, c)
    → All EntryOk m
    → All EntryOk (insert key c m)
unfolding insert
insert-All key c [] ok all = (ok, tt)
insert-All key c ((j, d) ∷ m) ok all = elim (Bool-cases (eqb_ℤ j key)) [
  | inl same ↦ rw same (ok, all.1)
  | inr other ↦ rw other (elim (Bool-cases (ltb_ℤ key j)) [
    | inl before ↦ rw before (ok, all)
    | inr behind ↦ rw behind (all.0, insert-All key c m ok all.1)
  ])
]

erase-All : (key : ℤ) (m : Map Connection) → All EntryOk m → All EntryOk (erase key m)
unfolding erase
erase-All key [] all = tt
erase-All key ((j, d) ∷ m) all = elim (Bool-cases (eqb_ℤ j key)) [
  | inl same ↦ rw same all.1
  | inr other ↦ rw other (all.0, erase-All key m all.1)
]

place_object-Valid :
    (s : Start) (c : Connection) (key : ℕ) (m : TcpManager)
    → key < index_key_max_size
    → Valid m
    → Valid (place_object s c key m).0
unfolding place_object
place_object-Valid s c key m below (is_map, all, bound) =
    let held_one = record c { own_key = pos key } in
    let is_map' = insert-IsMap (pos key) held_one m.network_info_map is_map in
    let all' = insert-All (pos key) held_one m.network_info_map (refl, below) all in
    elim (Bool-cases (s.start_succeeds && s.is_opened)) [
      | inl ok ↦ rw ok (is_map', all', omega arith)
      | inr failed ↦
          rw failed (erase-IsMap (pos key) _ is_map', erase-All (pos key) _ all', omega arith)
    ]

Tried-bound :
    (key tried : ℕ) (m : Map Connection)
    → key < index_key_max_size
    → Tried key m tried
    → tried < index_key_max_size
Tried-bound key tried m below (inl (low, high, free, more)) = high
Tried-bound key tried m below (inr (same, more)) = omega arith

insert_object-Valid :
    (s : Start) (c : Option Connection) (m : TcpManager) → Valid m → Valid (insert_object s c m).0
unfolding insert_object
insert_object-Valid s none m v = v
insert_object-Valid s (some c) m v =
    let start = wrapped_key m.index_key in
    let key = next_key start m.network_info_map in
    let below =
      Tried-bound start key m.network_info_map (wrapped_key_bound m.index_key)
        (next_key-Tried start m.network_info_map (wrapped_key_bound m.index_key)) in
    elim (Option-cases (lookup (pos key) m.network_info_map)) [
      | inl free ↦ rw free (place_object-Valid s c key m below v)
      | inr (other, used) ↦ rw used (v.0, v.1, omega arith)
    ]

remove_object-Valid : (key : ℤ) (m : TcpManager) → Valid m → Valid (remove_object key m).0
unfolding remove_object find_object
remove_object-Valid key m (is_map, all, bound) =
    elim (Option-cases (lookup key m.network_info_map)) [
      | inl absent ↦ rw (absent, find_object) (is_map, all, bound)
      | inr (c, used) ↦
          rw (used, find_object) (erase-IsMap key _ is_map, erase-All key _ all, bound)
    ]

remove_objects-Valid : (keys : List ℤ) (m : TcpManager) → Valid m → Valid (remove_objects keys m).0
unfolding remove_objects
remove_objects-Valid [] m v = v
remove_objects-Valid (key ∷ keys) m v =
    remove_objects-Valid keys (remove_object key m).0 (remove_object-Valid key m v)

step-Valid : (call : Call) (m : TcpManager) → Valid m → Valid (step call m).0
unfolding step remove_all
step-Valid (inserts s c) m v = insert_object-Valid s c m v
step-Valid (removes key) m v = remove_object-Valid key m v
step-Valid (removes_list keys) m v = remove_objects-Valid keys m v
step-Valid removes_all m v = (tt, tt, v.2)

-- After any calls on a valid table the keys are in range and distinct, each connection knows the key
-- it stands under, and the counter is at most the bound.
pub run-Valid : (calls : List Call) (m : TcpManager) → Valid m → Valid (run calls m).0
unfolding run
run-Valid [] m v = v
run-Valid (call ∷ calls) m v = run-Valid calls (step call m).0 (step-Valid call m v)

abbrev pub has_address : ℕ → ℕ → Connection → Bool
has_address ip port c = c.remote_ip == ip && c.remote_port == port

-- What the search by an address should answer: the key of an entry with it, or none when no entry
-- has it.
abbrev pub Found : ℕ → ℕ → Map Connection → Option ℤ → Type 0
Found ip port m none = All (λ e. has_address ip port e.1 ≡ false) m
Found ip port m (some key) =
    (c : Connection) × (lookup key m ≡ some c) × (has_address ip port c ≡ true)

Found-behind :
    (ip port : ℕ) (j : ℤ) (d : Connection) (m : Map Connection) (answer : Option ℤ)
    → lookup j m ≡ none
    → has_address ip port d ≡ false
    → Found ip port m answer
    → Found ip port ((j, d) ∷ m) answer
unfolding lookup
Found-behind ip port j d m none free other found = (other, found)
Found-behind ip port j d m (some key) free other (c, there, same) =
    elim (Bool-cases (eqb_ℤ j key)) [
      | inl here ↦ let e = (eqb_ℤ_iff j key).0 here in absurd (cc)
      | inr elsewhere ↦ (c, rw elsewhere there, same)
    ]

-- In a valid table the search by an address answers the key under which an entry with it stands,
-- and it fails only if no entry has it.
pub find_index_key-Found :
    (ip port : ℕ) (m : Map Connection)
    → IsMap m
    → All EntryOk m
    → Found ip port m (find_index_key ip port m)
unfolding find_index_key lookup
find_index_key-Found ip port [] is_map all = tt
find_index_key-Found ip port ((j, d) ∷ m) is_map all = elim (Bool-cases (has_address ip port d)) [
  | inl has ↦ rw has (d, rw ((eqb_ℤ_iff j d.own_key).1 (sym all.0.0)) refl, has)
  | inr hasnt ↦ rw hasnt (
      Found-behind ip port j d m (find_index_key ip port m) (lookup_head j m is_map) hasnt
        (find_index_key-Found ip port m (Above-IsMap j m is_map) all.1))
]

-- whether some entry has the address
unfoldable pub some_has : ℕ → ℕ → Map Connection → Bool
some_has ip port [] = false
some_has ip port ((j, d) ∷ m) = if has_address ip port d then true else some_has ip port m

InRange-valid : (key : ℤ) → InRange key → eqb_ℤ key minus_one ≡ false
InRange-valid (pos n) h = refl
InRange-valid (negsuc n) h = elim h [ ]

is_valid_key-find :
    (ip port : ℕ) (map : Map Connection)
    → All EntryOk map
    → is_valid_key (find_index_key ip port map) ≡ some_has ip port map
unfolding find_index_key some_has
is_valid_key-find ip port [] all = refl
is_valid_key-find ip port ((j, d) ∷ map) all = elim (Bool-cases (has_address ip port d)) [
  | inl has ↦ rw has (ap not (ap (λ k. eqb_ℤ k minus_one) all.0.0 ∙ InRange-valid j all.0.1))
  | inr hasnt ↦ rw hasnt (is_valid_key-find ip port map all.1)
]

-- In a valid table `IsConnected` holds exactly if some entry has the address.
pub is_connected-some_has :
    (ip port : ℕ) (m : TcpManager)
    → Valid m
    → is_connected ip port m ≡ some_has ip port m.network_info_map
unfolding is_connected
is_connected-some_has ip port m (is_map, all, bound) =
    is_valid_key-find ip port m.network_info_map all
