-- ===== src/Keyset/Errors.antt =====
-- Which errors the insertions of src/keyset.c give.
use maelys_json.Base.{ℕ, ◌≡◌, ◌⊎◌, Bool, err, arith}
use maelys_json.Keyset.{Key, Keyset, grow, insert_new, keyset_insert}
use maelys_json.Types.{Error, memory, duplicate_key}

pub keyset_insert_errors :
    (key_of : ℕ → Key) (granted : Bool) (s : Keyset) (index : ℕ) {e : Error}
    → keyset_insert key_of granted s index ≡ err e
    → (e ≡ memory) ⊎ (e ≡ duplicate_key)
unfolding keyset_insert insert_new grow
keyset_insert_errors key_of granted s index h = ground arith
