-- ===== src/Keyset.antt =====
-- src/keyset.c: a set of (parent, key bytes) pairs, an open-addressing table of the indices of
-- nodes. The owner's function from an index to its key is the argument `key_of`; whether `malloc`
-- gives the larger table is the argument `granted`.
pub mod Errors
use maelys_json.Base.{
  ℕ, zero, suc, ◌+◌, ◌-◌, ◌*◌, ◌/◌, ◌%◌, ◌^◌, Bool, true, false, not, ◌&&◌, ◌||◌, List, [], ◌∷◌,
  Option, none, some, bit_and, bit_xor, Bytes, get_or, set, replicate, ltb, ◌==◌, Outcome, ok, err,
  ◌>>=◌, if◌then◌else◌,
}
use maelys_json.Document.Access.{same_bytes}
use maelys_json.Types.{Error, memory, duplicate_key, size_max}

-- `maelys_json_keyset_key_t`
pub record Key : Type 0 where
  pub parent : ℕ
  pub bytes : Bytes

-- `maelys_json_keyset_t`; an empty slot holds MAELYS_JSON_VALUE_NONE.
pub record Keyset : Type 0 where
  pub slots : List (Option ℕ)
  pub capacity : ℕ
  pub count : ℕ

hash_bytes : ℕ → Bytes → ℕ
hash_bytes hash [] = hash
hash_bytes hash (b ∷ bs) = hash_bytes (bit_xor hash b * 1099511628211 % 2 ^ 64) bs

unfoldable pub hash_key : Key → ℕ
unfolding hash_bytes
hash_key key = hash_bytes (bit_xor 1469598103934665603 key.parent) key.bytes

unfoldable pub keys_equal : Key → Key → Bool
keys_equal a b = a.parent == b.parent && same_bytes a.bytes b.bytes

-- The loop, with a round for each slot. In a table with an empty slot it ends by one of its tests,
-- so the last result, for no fuel, is not reached.
unfoldable pub probe : (ℕ → Key) → List (Option ℕ) → ℕ → Key → ℕ → ℕ → ℕ × Bool
probe key_of slots mask key zero slot = (slot, false)
probe key_of slots mask key (suc fuel) slot =
    let next = probe key_of slots mask key fuel (bit_and (slot + 1) mask) in
    elim (get_or slots slot none) [
      | none ↦ (slot, false)
      | some stored ↦ if keys_equal (key_of stored) key then (slot, true) else next
    ]

-- The slot, and whether it holds the key.
unfoldable pub find_slot : (ℕ → Key) → List (Option ℕ) → ℕ → Key → ℕ × Bool
find_slot key_of slots capacity key =
    let mask = capacity - 1 in probe key_of slots mask key capacity (bit_and (hash_key key) mask)

unfoldable pub allocate_slots : ℕ → List (Option ℕ)
allocate_slots capacity = replicate capacity none

-- The doubling loop; 64 rounds pass any `size_t`.
capacity_loop : ℕ → ℕ → ℕ → ℕ
capacity_loop zero capacity expected = capacity
capacity_loop (suc fuel) capacity expected =
    let more = capacity_loop fuel (capacity * 2) expected in
    if ltb capacity (expected * 2) then more else capacity

unfoldable pub keyset_capacity : ℕ → ℕ
unfolding capacity_loop
keyset_capacity expected = capacity_loop 64 8 expected

unfoldable pub keyset_init : Bool → ℕ → Outcome Error Keyset
keyset_init granted expected =
    let capacity = keyset_capacity expected in
    if granted
    then ok (record { slots = allocate_slots capacity; capacity = capacity; count = 0 })
    else err memory

unfoldable pub keyset_contains : (ℕ → Key) → Keyset → Key → Bool
keyset_contains key_of s key = (find_slot key_of s.slots s.capacity key).1

-- The loop of `grow`: the stored indices go to the new table in slot order.
unfoldable pub move_slots : (ℕ → Key) → List (Option ℕ) → List (Option ℕ) → ℕ → List (Option ℕ)
move_slots key_of [] slots capacity = slots
move_slots key_of (none ∷ old) slots capacity = move_slots key_of old slots capacity
move_slots key_of (some stored ∷ old) slots capacity =
    move_slots key_of old
      (set slots (find_slot key_of slots capacity (key_of stored)).0 (some stored)) capacity

unfoldable pub grow : (ℕ → Key) → Bool → Keyset → Outcome Error Keyset
grow key_of granted s =
    let capacity = s.capacity * 2 in
    if ltb (size_max / 2 / 8) s.capacity || not granted
    then err memory
    else ok (record s {
      slots = move_slots key_of s.slots (allocate_slots capacity) capacity;
      capacity = capacity;
    })

-- The end of `insert`, in a table that is large enough.
unfoldable pub place : (ℕ → Key) → Keyset → ℕ → Keyset
place key_of s index =
    let slot = (find_slot key_of s.slots s.capacity (key_of index)).0 in
    record s { slots = set s.slots slot (some index); count = s.count + 1 }

unfoldable pub insert_new : (ℕ → Key) → Bool → Keyset → ℕ → Outcome Error Keyset
insert_new key_of granted s index =
    if ltb s.capacity ((s.count + 1) * 2)
    then (do grown ← grow key_of granted s; ok (place key_of grown index))
    else ok (place key_of s index)

unfoldable pub keyset_insert : (ℕ → Key) → Bool → Keyset → ℕ → Outcome Error Keyset
keyset_insert key_of granted s index =
    if (find_slot key_of s.slots s.capacity (key_of index)).1
    then err duplicate_key
    else insert_new key_of granted s index

-- The new set, and the index that the new one replaces.
unfoldable pub keyset_insert_last :
    (ℕ → Key) → Bool → Keyset → ℕ → Outcome Error (Keyset × Option ℕ)
keyset_insert_last key_of granted s index =
    let found = find_slot key_of s.slots s.capacity (key_of index) in
    if found.1
    then ok (record s { slots = set s.slots found.0 (some index) }, get_or s.slots found.0 none)
    else (do grown ← insert_new key_of granted s index; ok (grown, none))
