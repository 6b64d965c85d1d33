-- ===== src/TcpManager/Account.antt =====
-- Histories of insertions and removals: the table's invariant, and what becomes of each connection.
use oven_web_rtctester.Prelude.{
  ℕ, ◌+◌, ◌≡◌, refl, ap, ◌∙◌, inl, inr, ◌&&◌, Option, none, some, List, [], ◌∷◌, ◌++◌, ◌==◌,
  if◌then◌else◌, Bool-cases, Option-cases, arith,
}
use oven_web_rtctester.Prelude.Int.{ℤ, pos, eqb_ℤ, eqb_ℤ_iff}
use oven_web_rtctester.Prelude.Map.{Map, lookup, insert, erase, lookup-insert}
use oven_web_rtctester.TcpManager.{
  Connection, Request, starts, posts_close, starts_keepalive, TcpManager, wrapped_key, next_key,
  keepalive, Start, place_object, insert_object, find_object, remove_object, remove_objects,
  close_each, remove_all,
}

-- The calls of the public interface that change the table.
pub data Call : Type 0 where
  inserts : Start → Option Connection → Call
  removes : ℤ → Call
  removes_list : List ℤ → Call
  removes_all : Call

abbrev without_result {ℓ} : {A : Type ℓ} → TcpManager × List Request × A → TcpManager × List Request
without_result (m, requests, a) = (m, requests)

unfoldable pub step : Call → TcpManager → TcpManager × List Request
step (inserts s c) m = without_result (insert_object s c m)
step (removes key) m = without_result (remove_object key m)
step (removes_list keys) m = remove_objects keys m
step removes_all m = remove_all m

unfoldable pub run : List Call → TcpManager → TcpManager × List Request
run [] m = (m, [])
run (call ∷ calls) m =
    let (m', requests) = step call m in let (m'', more) = run calls m' in (m'', requests ++ more)

-- How often a connection is started and told to close, and how many entries hold it.
abbrev is_one : ℕ → ℕ → ℕ
is_one a b = if a == b then 1 else 0

unfoldable pub starts_of : ℕ → List Request → ℕ
starts_of o [] = 0
starts_of o (starts p ∷ requests) = is_one p o + starts_of o requests
starts_of o (posts_close p ∷ requests) = starts_of o requests
starts_of o (starts_keepalive p time ∷ requests) = starts_of o requests

unfoldable pub closes_of : ℕ → List Request → ℕ
closes_of o [] = 0
closes_of o (starts p ∷ requests) = closes_of o requests
closes_of o (posts_close p ∷ requests) = is_one p o + closes_of o requests
closes_of o (starts_keepalive p time ∷ requests) = closes_of o requests

unfoldable pub held : ℕ → Map Connection → ℕ
held o [] = 0
held o ((key, c) ∷ m) = is_one c.object o + held o m

starts_of-append :
    (o : ℕ) (xs ys : List Request) → starts_of o (xs ++ ys) ≡ starts_of o xs + starts_of o ys
unfolding starts_of
starts_of-append o [] ys = omega arith
starts_of-append o (starts p ∷ xs) ys = omega (arith, starts_of-append o xs ys)
starts_of-append o (posts_close p ∷ xs) ys = starts_of-append o xs ys
starts_of-append o (starts_keepalive p time ∷ xs) ys = starts_of-append o xs ys

closes_of-append :
    (o : ℕ) (xs ys : List Request) → closes_of o (xs ++ ys) ≡ closes_of o xs + closes_of o ys
unfolding closes_of
closes_of-append o [] ys = omega arith
closes_of-append o (starts p ∷ xs) ys = closes_of-append o xs ys
closes_of-append o (posts_close p ∷ xs) ys = omega (arith, closes_of-append o xs ys)
closes_of-append o (starts_keepalive p time ∷ xs) ys = closes_of-append o xs ys

held-insert :
    (o : ℕ) (key : ℤ) (c : Connection) (m : Map Connection)
    → lookup key m ≡ none
    → held o (insert key c m) ≡ is_one c.object o + held o m
unfolding held lookup insert
held-insert o key c [] h = omega arith
held-insert o key c ((j, d) ∷ m) h = ground (arith, held-insert o key c m)

held-erase :
    (o : ℕ) (key : ℤ) (c : Connection) (m : Map Connection)
    → lookup key m ≡ some c
    → held o m ≡ is_one c.object o + held o (erase key m)
unfolding held lookup erase
held-erase o key c [] h = cc
held-erase o key c ((j, d) ∷ m) h = elim (Bool-cases (eqb_ℤ j key)) [
  | inl same ↦
      let found : some d ≡ some c = rw same at h in let is_c : d ≡ c = cc in rw (same, is_c) refl
  | inr other ↦ rw other (omega (arith, held-erase o key c m (rw other at h)))
]

-- The requests and the table account for the connection `o`.
abbrev pub Accounts : ℕ → TcpManager → TcpManager × List Request → Type 0
Accounts o m (m', requests) =
    closes_of o requests + held o m'.network_info_map
    ≡ starts_of o requests + held o m.network_info_map

closes_of-close_each : (o : ℕ) (m : Map Connection) → closes_of o (close_each m) ≡ held o m
unfolding closes_of held
closes_of-close_each o [] = refl
closes_of-close_each o ((key, c) ∷ m) = omega (arith, closes_of-close_each o m)

starts_of-close_each : (o : ℕ) (m : Map Connection) → starts_of o (close_each m) ≡ 0
unfolding starts_of
starts_of-close_each o [] = refl
starts_of-close_each o ((key, c) ∷ m) = starts_of-close_each o m

starts_of-keepalive : (o : ℕ) (s : Start) (p : ℕ) → starts_of o (keepalive s p) ≡ 0
unfolding starts_of
starts_of-keepalive o s p = ground arith

closes_of-keepalive : (o : ℕ) (s : Start) (p : ℕ) → closes_of o (keepalive s p) ≡ 0
unfolding closes_of
closes_of-keepalive o s p = ground arith

held-erase-insert :
    (o : ℕ) (key : ℤ) (c : Connection) (m : Map Connection)
    → lookup key m ≡ none
    → held o (erase key (insert key c m)) ≡ held o m
held-erase-insert o key c m free =
    let there : lookup key (insert key c m) ≡ some c =
      lookup-insert key key c m
      ∙ ap (λ b. if b then some c else lookup key m) ((eqb_ℤ_iff key key).1 refl) in
    omega (arith, held-insert o key c m free, held-erase o key c (insert key c m) there)

place_object-Accounts :
    (o : ℕ) (s : Start) (c : Connection) (key : ℕ) (m : TcpManager)
    → lookup (pos key) m.network_info_map ≡ none
    → Accounts o m (without_result (place_object s c key m))
unfolding place_object starts_of closes_of
place_object-Accounts o s c key m free =
    let held_one = record c { own_key = pos key } in
    let map = m.network_info_map in
    elim (Bool-cases (s.start_succeeds && s.is_opened)) [
      | inl ok ↦ rw ok (
          omega (
            arith,
            starts_of-keepalive o s c.object,
            closes_of-keepalive o s c.object,
            held-insert o (pos key) held_one map free,
          ))
      | inr failed ↦ rw failed (
          omega (
            arith,
            starts_of-keepalive o s c.object,
            closes_of-keepalive o s c.object,
            starts_of-append o (keepalive s c.object) (posts_close c.object ∷ []),
            closes_of-append o (keepalive s c.object) (posts_close c.object ∷ []),
            held-erase-insert o (pos key) held_one map free,
          ))
    ]

insert_object-Accounts :
    (o : ℕ) (s : Start) (c : Option Connection) (m : TcpManager)
    → Accounts o m (without_result (insert_object s c m))
unfolding insert_object starts_of closes_of
insert_object-Accounts o s none m = refl
insert_object-Accounts o s (some c) m =
    let key = next_key (wrapped_key m.index_key) m.network_info_map in
    elim (Option-cases (lookup (pos key) m.network_info_map)) [
      | inl free ↦ rw free (place_object-Accounts o s c key m free)
      | inr (other, used) ↦ rw used refl
    ]

remove_object-Accounts :
    (o : ℕ) (key : ℤ) (m : TcpManager) → Accounts o m (without_result (remove_object key m))
unfolding remove_object find_object starts_of closes_of
remove_object-Accounts o key m = elim (Option-cases (lookup key m.network_info_map)) [
  | inl absent ↦ rw (absent, find_object) refl
  | inr (c, used) ↦
      rw (used, find_object) (omega (arith, held-erase o key c m.network_info_map used))
]

-- Calls that account for a connection do so one after the other.
join-Accounts :
    (o : ℕ) (m m' m'' : TcpManager) (requests more : List Request)
    → Accounts o m (m', requests)
    → Accounts o m' (m'', more)
    → Accounts o m (m'', requests ++ more)
join-Accounts o m m' m'' requests more a b =
    omega (arith, a, b, starts_of-append o requests more, closes_of-append o requests more)

remove_objects-Accounts :
    (o : ℕ) (keys : List ℤ) (m : TcpManager) → Accounts o m (remove_objects keys m)
unfolding remove_objects starts_of closes_of
remove_objects-Accounts o [] m = refl
remove_objects-Accounts o (key ∷ keys) m =
    let (m', requests, found) = remove_object key m in
    let (m'', more) = remove_objects keys m' in
    join-Accounts o m m' m'' requests more (remove_object-Accounts o key m)
      (remove_objects-Accounts o keys m')

step-Accounts : (o : ℕ) (call : Call) (m : TcpManager) → Accounts o m (step call m)
unfolding step remove_all held
step-Accounts o (inserts s c) m = insert_object-Accounts o s c m
step-Accounts o (removes key) m = remove_object-Accounts o key m
step-Accounts o (removes_list keys) m = remove_objects-Accounts o keys m
step-Accounts o removes_all m =
    omega
      (arith, starts_of-close_each o m.network_info_map, closes_of-close_each o m.network_info_map)

-- However insertions and removals follow each other, a connection is told to close and is held by
-- the table as often, together, as the table held it before and as it was started since.
pub run-Accounts : (o : ℕ) (calls : List Call) (m : TcpManager) → Accounts o m (run calls m)
unfolding run starts_of closes_of
run-Accounts o [] m = refl
run-Accounts o (call ∷ calls) m =
    let (m', requests) = step call m in
    let (m'', more) = run calls m' in
    join-Accounts o m m' m'' requests more (step-Accounts o call m) (run-Accounts o calls m')
