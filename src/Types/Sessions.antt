-- ===== src/Types/Sessions.antt =====
-- `SessionId` and `SessionIdAllocator` of src/klf200/types.rs. The `BTreeSet` of active ids is a
-- list: only insertion, removal and membership are used of it.
pub mod Fresh
use velux2mqtt.Prelude.{
  ◌+◌, ◌==◌, Bool, List, Option, [], if◌then◌else◌, false, none, some, suc, true, zero, ◌||◌, ℕ,
  ◌∷◌,
}
use velux2mqtt.Error.{Result, err, ok, session_id_in_use, session_ids_exhausted}

abbrev pub u16_max : ℕ
u16_max = 65535

-- `BTreeSet::contains`, `insert` (with whether the id was new) and `remove` (whether it was there).
unfoldable pub contains : List ℕ → ℕ → Bool
contains [] id = false
contains (x ∷ xs) id = x == id || contains xs id

pub insert : List ℕ → ℕ → List ℕ × Bool
insert xs id = if contains xs id then (xs, false) else (id ∷ xs, true)

pub erase : List ℕ → ℕ → List ℕ
erase [] id = []
erase (x ∷ xs) id = let rest = erase xs id in if x == id then rest else x ∷ rest

pub remove : List ℕ → ℕ → List ℕ × Bool
unfolding erase
remove xs id = (erase xs id, contains xs id)

-- `SessionId::new`
unfoldable pub session_id : ℕ → Option ℕ
session_id value = if value == 0 then none else some value

pub record Allocator : Type 0 where
  pub next : ℕ
  pub active : List ℕ

-- `SessionIdAllocator::new`
abbrev pub new : Allocator
new = record { next = 1; active = [] }

abbrev pub starting_at : ℕ → Allocator
starting_at id = record { next = id; active = [] }

-- The id after `candidate`, of which zero is none.
pub successor : ℕ → ℕ
successor candidate = if candidate == u16_max then 1 else candidate + 1

-- The loop of `allocate`; `rounds` are left of it.
unfoldable pub allocate_loop : ℕ → Allocator → Allocator × Result ℕ
unfolding insert successor
allocate_loop zero a = (a, err session_ids_exhausted)
allocate_loop (suc rounds) a =
    let candidate = a.next in
    let (active, inserted) = insert a.active candidate in
    let a' : Allocator = record { next = successor candidate; active = active } in
    let rest = allocate_loop rounds a' in if inserted then (a', ok candidate) else rest

unfoldable pub allocate : Allocator → Allocator × Result ℕ
allocate a = allocate_loop u16_max a

unfoldable pub reserve : Allocator → ℕ → Allocator × Result (Unit {0})
unfolding insert
reserve a id =
    let (active, inserted) = insert a.active id in
    (record a { active = active }, if inserted then ok tt else err (session_id_in_use id))

unfoldable pub release : Allocator → ℕ → Allocator × Bool
unfolding remove
release a id = let (active, present) = remove a.active id in (record a { active = active }, present)

unfoldable pub is_active : Allocator → ℕ → Bool
unfolding contains
is_active a id = contains a.active id
