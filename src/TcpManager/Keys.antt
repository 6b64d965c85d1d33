-- ===== src/TcpManager/Keys.antt =====
-- The keys of the table: which one a new connection gets, and what the table holds under it.
use oven_web_rtctester.Prelude.{
  ℕ, zero, suc, ◌+◌, ◌-◌, ◌≤◌, ◌<◌, ◌≡◌, refl, sym, ap, ◌∙◌, ◌⊎◌, inl, inr, true, ◌&&◌, Option,
  none, some, List, [], ltb, ◌==◌, ==_iff, if◌then◌else◌, Bool-cases, Option-cases, arith,
}
use oven_web_rtctester.Prelude.Int.{ℤ, pos, negsuc, minus_one, eqb_ℤ, eqb_ℤ_iff}
use oven_web_rtctester.Prelude.Map.{
  Map, lookup, insert, erase, IsMap, lookup-insert, lookup-erase, insert-IsMap,
}
use oven_web_rtctester.TcpManager.{
  index_key_max_size, Connection, Request, TcpManager, search, wrapped_key, or_key, next_key, Start,
  place_object, insert_object,
}

-- Every key from `key` up to `bound` is in use.
abbrev pub Taken {ℓ} : {V : Type ℓ} → ℕ → ℕ → Map V → Type ℓ
Taken {V = V} key bound m = (j : ℕ) → key ≤ j → j < bound → (c : V) × (lookup (pos j) m ≡ some c)

-- What the search gives: the least free key of its range, or none if all are in use.
abbrev pub Searched {ℓ} : {V : Type ℓ} → ℕ → ℕ → Map V → Option ℕ → Type ℓ
Searched key bound m none = Taken key bound m
Searched key bound m (some found) =
    (key ≤ found) × (found < bound) × (lookup (pos found) m ≡ none) × Taken key found m

pub Taken-more {ℓ} :
    {V : Type ℓ} (key bound : ℕ) (m : Map V) (c : V)
    → lookup (pos key) m ≡ some c
    → Taken (suc key) bound m
    → Taken key bound m
Taken-more key bound m c e rest j low high = elim (Bool-cases (key == j)) [
  | inl here ↦ (c, ap (λ i. lookup (pos i) m) (sym ((==_iff key j).0 here)) ∙ e)
  | inr there ↦ rest j (ground arith) high
]

search_step {ℓ} :
    {V : Type ℓ} (key bound : ℕ) (m : Map V) (c : V) (found : Option ℕ)
    → lookup (pos key) m ≡ some c
    → Searched (suc key) bound m found
    → Searched key bound m found
search_step key bound m c none e s = Taken-more key bound m c e s
search_step key bound m c (some found) e (low, high, free, below) =
    (omega arith, high, free, Taken-more key found m c e below)

search-Searched {ℓ} :
    {V : Type ℓ} (count key bound : ℕ) (m : Map V)
    → key + count ≡ bound
    → Searched key bound m (search count key m)
unfolding search
search-Searched zero key bound m e = λ j low high. absurd (omega arith)
search-Searched (suc count) key bound m e = elim (Option-cases (lookup (pos key) m)) [
  | inl free ↦
      let here : search (suc count) key m ≡ some key = rw (free, search) in
      rw here (omega arith, omega arith, free, λ j low high. absurd (omega arith))
  | inr (c, used) ↦
      let on : search (suc count) key m ≡ search count (suc key) m = rw (used, search) in
      rw on (
        search_step key bound m c (search count (suc key) m) used
          (search-Searched count (suc key) bound m (omega arith)))
]

-- The key that an insertion tries, for a counter below the bound: the least free one from the
-- counter on, or the counter itself when none is left.
abbrev pub Tried {ℓ} : {V : Type ℓ} → ℕ → Map V → ℕ → Type ℓ
Tried key m tried =
    ((key ≤ tried)
      × (tried < index_key_max_size)
      × (lookup (pos tried) m ≡ none)
      × Taken key tried m)
    ⊎ ((tried ≡ key) × Taken key index_key_max_size m)

Searched-key {ℓ} :
    {V : Type ℓ} (key : ℕ) (m : Map V) (found : Option ℕ)
    → Searched key index_key_max_size m found
    → Tried key m (or_key key found)
Searched-key key m none s = inr (refl, s)
Searched-key key m (some found) s = inl s

pub next_key-Tried {ℓ} :
    {V : Type ℓ} (key : ℕ) (m : Map V) → key < index_key_max_size → Tried key m (next_key key m)
unfolding next_key
next_key-Tried key m below = elim (Option-cases (lookup (pos key) m)) [
  | inl free ↦
      let here : next_key key m ≡ key = rw (free, next_key) in
      rw here (inl (omega arith, below, free, λ j low high. absurd (omega arith)))
  | inr (c, used) ↦
      let on : next_key key m ≡ or_key key (search (index_key_max_size - key) key m) =
        rw (used, next_key) in
      rw on (
        Searched-key key m (search (index_key_max_size - key) key m)
          (search-Searched (index_key_max_size - key) key index_key_max_size m (omega arith)))
]

pub wrapped_key_bound : (key : ℕ) → wrapped_key key < index_key_max_size
unfolding wrapped_key
wrapped_key_bound key = ground arith

-- What an insertion does to the table: the answered key was free and holds the connection, with its
-- key set; without a key the table holds what it held.
abbrev pub Inserted : Connection → TcpManager → TcpManager × List Request × ℤ → Type 0
Inserted c m (m', requests, pos key) =
    (key < index_key_max_size)
    × (lookup (pos key) m.network_info_map ≡ none)
    × ((j : ℤ)
        → lookup j m'.network_info_map ≡ (
            if eqb_ℤ (pos key) j
            then some (record c { own_key = pos key })
            else lookup j m.network_info_map))
Inserted c m (m', requests, negsuc n) =
    (j : ℤ) → lookup j m'.network_info_map ≡ lookup j m.network_info_map

lookup-erase-insert :
    (key j : ℤ) (c : Connection) (m : Map Connection)
    → IsMap m
    → lookup key m ≡ none
    → lookup j (erase key (insert key c m)) ≡ lookup j m
lookup-erase-insert key j c m h free =
    lookup-erase key j (insert key c m) (insert-IsMap key c m h)
    ∙ ap (λ o. if eqb_ℤ key j then none else o) (lookup-insert key j c m)
    ∙ ground (arith, eqb_ℤ_iff key j)

place_object-Inserted :
    (s : Start) (c : Connection) (key : ℕ) (m : TcpManager)
    → IsMap m.network_info_map
    → key < index_key_max_size
    → lookup (pos key) m.network_info_map ≡ none
    → Inserted c m (place_object s c key m)
unfolding place_object
place_object-Inserted s c key m h below free =
    let held = record c { own_key = pos key } in
    elim (Bool-cases (s.start_succeeds && s.is_opened)) [
      | inl ok ↦ rw ok (below, free, λ j. lookup-insert (pos key) j held m.network_info_map)
      | inr failed ↦ rw failed (λ j. lookup-erase-insert (pos key) j held m.network_info_map h free)
    ]

-- Whatever the connection and the counter, an inserted connection stands in the table under a key
-- that was free and lies below the largest, with that key set in it, and every other entry stays; an
-- insertion without a key leaves the entries of the table as they were.
pub insert_object-Inserted :
    (s : Start) (c : Connection) (m : TcpManager)
    → IsMap m.network_info_map
    → Inserted c m (insert_object s (some c) m)
unfolding insert_object
insert_object-Inserted s c m h =
    let map = m.network_info_map in
    let key = next_key (wrapped_key m.index_key) map in
    elim (next_key-Tried (wrapped_key m.index_key) map (wrapped_key_bound m.index_key)) [
      | inl (low, high, free, below) ↦ rw free (place_object-Inserted s c key m h high free)
      | inr (same, taken) ↦
          let (other, used) =
            taken (wrapped_key m.index_key) (omega arith) (wrapped_key_bound m.index_key) in
          let stuck : lookup (pos key) map ≡ some other =
            ap (λ i. lookup (pos i) map) same ∙ used in
          rw stuck (λ j. refl)
    ]

pub least-Tried {ℓ} :
    {V : Type ℓ} (key j : ℕ) (m : Map V)
    → key ≤ j
    → j < index_key_max_size
    → lookup (pos j) m ≡ none
    → Taken key j m
    → (tried : ℕ) → Tried key m tried
    → tried ≡ j
least-Tried key j m low high free taken tried (inl (low', high', free', taken')) =
    elim (Bool-cases (ltb tried j)) [
      | inl less ↦ let (c, used) = taken tried low' (ground arith) in absurd (cc)
      | inr not_less ↦ elim (Bool-cases (ltb j tried)) [
        | inl more ↦ let (c, used) = taken' j low (ground arith) in absurd (cc)
        | inr not_more ↦ ground arith
      ]
    ]
least-Tried key j m low high free taken tried (inr (same, all)) =
    let (c, used) = all j low high in absurd (cc)

-- A connection that starts and is open gets the least free key from the counter on, where the
-- counter starts again at 0 once it has reached the largest key, if a key is free there.
pub insert_object_least :
    (s : Start) (c : Connection) (m : TcpManager) (j : ℕ)
    → s.start_succeeds ≡ true
    → s.is_opened ≡ true
    → wrapped_key m.index_key ≤ j
    → j < index_key_max_size
    → lookup (pos j) m.network_info_map ≡ none
    → Taken (wrapped_key m.index_key) j m.network_info_map
    → (insert_object s (some c) m).2 ≡ pos j
unfolding insert_object place_object
insert_object_least s c m j start_succeeds is_opened low high free taken =
    let map = m.network_info_map in
    let same =
      least-Tried (wrapped_key m.index_key) j map low high free taken
        (next_key (wrapped_key m.index_key) map)
        (next_key-Tried (wrapped_key m.index_key) map (wrapped_key_bound m.index_key)) in
    rw (same, free, start_succeeds, is_opened) refl

-- When every key from the counter to the largest is in use, no connection is inserted, nothing is
-- started or closed and the counter does not move on, though smaller keys may be free.
pub insert_object_stuck :
    (s : Start) (c : Connection) (m : TcpManager)
    → Taken (wrapped_key m.index_key) index_key_max_size m.network_info_map
    → insert_object s (some c) m ≡ (record m { index_key = wrapped_key m.index_key }, [], minus_one)
unfolding insert_object
insert_object_stuck s c m taken =
    let map = m.network_info_map in
    let key = wrapped_key m.index_key in
    elim (next_key-Tried key map (wrapped_key_bound m.index_key)) [
      | inl (low, high, free, below) ↦
          let (other, used) = taken (next_key key map) low high in absurd (cc)
      | inr (same, all) ↦
          let (other, used) = taken key (omega arith) (wrapped_key_bound m.index_key) in
          rw (same, used) refl
    ]
