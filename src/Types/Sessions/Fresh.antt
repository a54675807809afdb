-- ===== src/Types/Sessions/Fresh.antt =====
-- What `allocate` promises: a fresh id whenever one is left.
use velux2mqtt.Prelude.{
  ◌<◌, All, arith, ◌≤◌, ◌+◌, ◌-◌, if◌then◌else◌, false, leb, suc, true, zero, ℕ, ◌∷◌, ◌≡◌,
  Bool-cases, ap, inl, inr, refl, sym, ◌∙◌, ◌&&◌, ◌==◌, List, [], if_both, not, ◌||◌, ◌↔◌,
}
use velux2mqtt.Types.Sessions.{
  Allocator, u16_max, successor, allocate_loop, contains, insert, allocate, erase, release, reserve,
  is_active,
}
use velux2mqtt.Error.{
  ok, KlfError, err, err≢ok, ok_inj, session_ids_exhausted, Result-cases, session_id_in_use,
}

-- A 16-bit number other than zero.
abbrev pub IsSessionId : ℕ → Type 0
IsSessionId id = (0 < id) × (id ≤ u16_max)

-- The next candidate and the active ids are valid session ids.
pub record IsValid (a : Allocator) : Type 0 where
  pub next_valid : IsSessionId a.next
  pub active_valid : All IsSessionId a.active

successor-IsSessionId : (id : ℕ) → IsSessionId id → IsSessionId (successor id)
unfolding successor
successor-IsSessionId id h = ground arith

-- The candidate after `j` rounds.
candidate_at : ℕ → ℕ → ℕ
candidate_at zero id = id
candidate_at (suc j) id = candidate_at j (successor id)

candidate_at_lem :
    (j id : ℕ)
    → IsSessionId id
    → j < u16_max
    → candidate_at j id ≡ (if leb (id + j) u16_max then id + j else id + j - u16_max)
unfolding candidate_at successor
candidate_at_lem zero id h l = ground arith
candidate_at_lem (suc j) id h l =
    ground (arith, candidate_at_lem j (successor id) (successor-IsSessionId id h))

-- Every valid id is a candidate in one of the rounds.
candidate_at_surjective :
    (start id : ℕ)
    → IsSessionId start
    → IsSessionId id
    → (j : ℕ) × (j < u16_max) × (candidate_at j start ≡ id)
candidate_at_surjective start id s h =
    let j = if leb start id then id - start else id + u16_max - start in
    let small : j < u16_max = ground arith in
    (j, small, ground (arith, candidate_at_lem j start s small))

-- One round, where the candidate is free and where it is taken.
loop_free :
    (rounds : ℕ) (a : Allocator)
    → contains a.active a.next ≡ false
    → allocate_loop (suc rounds) a
      ≡ (record { next = successor a.next; active = a.next ∷ a.active }, ok a.next)
unfolding allocate_loop
loop_free rounds a h = rw (h, insert)

loop_taken :
    (rounds : ℕ) (a : Allocator)
    → contains a.active a.next ≡ true
    → allocate_loop (suc rounds) a ≡ allocate_loop rounds (record a { next = successor a.next })
unfolding allocate_loop
loop_taken rounds a h = rw (h, insert)

loop_over : (a : Allocator) → (allocate_loop 0 a).1 ≡ err session_ids_exhausted
unfolding allocate_loop
loop_over a = refl

loop-ok :
    (rounds : ℕ) (a : Allocator) {a' : Allocator} {id : ℕ}
    → IsValid a
    → allocate_loop rounds a ≡ (a', ok id)
    → (contains a.active id ≡ false) × IsSessionId id × IsValid a' × (a'.active ≡ id ∷ a.active)
loop-ok zero a v h = absurd (err≢ok _ _ (sym (loop_over a) ∙ ap (λ r. r.1) h))
loop-ok (suc rounds) a {a'} {id} v h = elim (Bool-cases (contains a.active a.next)) [
  | inl taken ↦
      loop-ok rounds (record a { next = successor a.next })
        (record {
          next_valid = successor-IsSessionId a.next v.next_valid;
          active_valid = v.active_valid;
        })
        (sym (loop_taken rounds a taken) ∙ h)
  | inr free ↦
      let both = sym (loop_free rounds a free) ∙ h in
      let same : a.next ≡ id = ok_inj (ap (λ r. r.1) both) in
      let after : record { next = successor a.next; active = a.next ∷ a.active } ≡ a' =
        ap (λ r. r.0) both in
      rw (← same, ← after)
        (
          free,
          v.next_valid,
          record {
            next_valid = successor-IsSessionId a.next v.next_valid;
            active_valid = (v.next_valid, v.active_valid);
          },
          refl,
        )
]

loop-err :
    (rounds : ℕ) (a : Allocator) {e : KlfError}
    → (allocate_loop rounds a).1 ≡ err e
    → (allocate_loop rounds a).1 ≡ err session_ids_exhausted
loop-err zero a h = loop_over a
loop-err (suc rounds) a h = elim (Bool-cases (contains a.active a.next)) [
  | inl taken ↦
      let once = ap (λ r. r.1) (loop_taken rounds a taken) in
      once ∙ loop-err rounds (record a { next = successor a.next }) (sym once ∙ h)
  | inr free ↦ absurd (err≢ok _ _ (sym h ∙ ap (λ r. r.1) (loop_free rounds a free)))
]

loop_finds :
    (rounds : ℕ) (a : Allocator) (j : ℕ)
    → j < rounds
    → contains a.active (candidate_at j a.next) ≡ false
    → (a' : Allocator) × (id : ℕ) × (allocate_loop rounds a ≡ (a', ok id))
unfolding candidate_at
loop_finds zero a j lt free = absurd (omega arith)
loop_finds (suc rounds) a zero lt free = (_, _, loop_free rounds a free)
loop_finds (suc rounds) a (suc j) lt free =
    let (a', id, found) =
      loop_finds rounds (record a { next = successor a.next }) j (omega arith) free in
    elim (Bool-cases (contains a.active a.next)) [
      | inr open_now ↦ (_, _, loop_free rounds a open_now)
      | inl taken ↦ (a', id, loop_taken rounds a taken ∙ found)
    ]

-- An id that `allocate` hands out is a valid session id that was not active; it is active
-- afterwards, and no other id has become active or inactive.
pub allocate-ok :
    (a : Allocator) {a' : Allocator} {id : ℕ}
    → IsValid a
    → allocate a ≡ (a', ok id)
    → (is_active a id ≡ false)
      × IsSessionId id
      × IsValid a'
      × ((other : ℕ) → is_active a' other ≡ (id == other || is_active a other))
unfolding allocate is_active
allocate-ok a {a'} {id} v h =
    let (free, valid, v', now) = loop-ok u16_max a v h in
    (
      free,
      valid,
      v',
      λ other. ap (λ (xs : List ℕ). contains xs other) now ∙ unfold contains in refl,
    )

-- `allocate` fails exactly if every valid session id is active, and then it reports that the ids
-- are exhausted.
pub allocate-exhausted_iff :
    (a : Allocator)
    → IsValid a
    → ((allocate a).1 ≡ err session_ids_exhausted)
      ↔ ((id : ℕ) → IsSessionId id → is_active a id ≡ true)
unfolding allocate is_active
allocate-exhausted_iff a v = (all_active, all_fail)
  where
    all_active :
        (allocate_loop u16_max a).1 ≡ err session_ids_exhausted
        → (id : ℕ) → IsSessionId id
        → contains a.active id ≡ true
    all_active h id valid = elim (Bool-cases (contains a.active id)) [
      | inl active ↦ active
      | inr free ↦
          let (j, lt, at) = candidate_at_surjective a.next id v.next_valid valid in
          let (_, _, found) = loop_finds u16_max a j lt (rw at free) in
          absurd (err≢ok _ _ (sym h ∙ ap (λ r. r.1) found))
    ]

    all_fail :
        ((id : ℕ) → IsSessionId id → contains a.active id ≡ true)
        → (allocate_loop u16_max a).1 ≡ err session_ids_exhausted
    all_fail h = elim (Result-cases (allocate_loop u16_max a).1) [
      | inr (e, failed) ↦ loop-err u16_max a failed
      | inl (id, found) ↦
          let (free, valid, _, _) =
            loop-ok u16_max a v (λ i. ((allocate_loop u16_max a).0, found i)) in
          cc (h id valid, free)
    ]

contains-erase :
    (xs : List ℕ) (id other : ℕ)
    → contains (erase xs id) other ≡ (not (id == other) && contains xs other)
unfolding contains erase
contains-erase [] id other = ground arith
contains-erase (x ∷ xs) id other = ground (arith, contains-erase xs id other)

erase-All : (P : ℕ → Type 0) (xs : List ℕ) (id : ℕ) → All P xs → All P (erase xs id)
unfolding erase
erase-All P [] id h = tt
erase-All P (x ∷ xs) id h =
    if_both (All P) (x == id) (erase-All P xs id h.1) (h.0, erase-All P xs id h.1)

-- `release` reports whether the id was active, makes it inactive and leaves the others alone, so
-- that the id can be reserved or allocated again; the allocator stays well formed.
pub release_lem :
    (a : Allocator) (id : ℕ)
    → IsValid a
    → ((release a id).1 ≡ is_active a id)
      × IsValid (release a id).0
      × ((other : ℕ) → is_active (release a id).0 other ≡ (not (id == other) && is_active a other))
unfolding release is_active
release_lem a id v = (
  refl,
  record {
    next_valid = v.next_valid;
    active_valid = erase-All IsSessionId a.active id v.active_valid;
  },
  contains-erase a.active id,
)

contains_absorbs :
    (xs : List ℕ) (id other : ℕ)
    → contains xs id ≡ true
    → contains xs other ≡ (id == other || contains xs other)
contains_absorbs xs id other h = ground arith

-- `reserve` takes an id exactly if it is not active; afterwards the id is active in either case,
-- and no other id has changed.
pub reserve_lem :
    (a : Allocator) (id : ℕ)
    → ((reserve a id).1 ≡ (if is_active a id then err (session_id_in_use id) else ok tt))
      × ((other : ℕ) → is_active (reserve a id).0 other ≡ (id == other || is_active a other))
unfolding reserve is_active insert contains
reserve_lem a id = (
  ground arith,
  λ other. elim (Bool-cases (contains a.active id)) [
    | inl active ↦ rw active (contains_absorbs a.active id other active)
    | inr free ↦ rw free refl
  ],
)
