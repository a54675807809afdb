-- ===== src/CommandId/Laws.antt =====
-- The registry of command ids, checked over the whole table.
use velux2mqtt.CommandId.Table.{KnownCommand, all_known_commands}
use velux2mqtt.CommandId.{
  CommandKind, request, confirmation, find, known, kind, kind_of_name, confirmation_of_name,
  expected_confirmation, bytes_eq,
}
use velux2mqtt.Prelude.{
  ◌&&◌, Bool, List, [], arith, false, none, not, refl, some, true, ◌∷◌, ◌≡◌, ◌==◌, ==_iff,
  Option-cases, inl, inr, sym, ℕ, ◌∙◌, ap,
}

every : (KnownCommand → Bool) → List KnownCommand → Bool
every t [] = true
every t (c ∷ cs) = t c && every t cs

find-every :
    (p t : KnownCommand → Bool) (cs : List KnownCommand) {c : KnownCommand}
    → every t cs ≡ true
    → find p cs ≡ some c
    → (t c ≡ true) × (p c ≡ true)
unfolding every find
find-every p t [] h e = cc
find-every p t (x ∷ xs) {c} h e = ground (arith, find-every p t xs {c = c})

abbrev is_request : CommandKind → Bool
is_request request = true
is_request _ = false

abbrev is_confirmation : CommandKind → Bool
is_confirmation confirmation = true
is_confirmation _ = false

-- A command of the table is found under its id, and it has a confirmation, which is a
-- confirmation, exactly if it is a request.
entry_test : KnownCommand → Bool
entry_test c = elim (known c.id) [
  | some found ↦ bytes_eq found.name c.name && (elim (confirmation_of_name c.name) [
    | some id ↦ is_request (kind_of_name c.name) && is_confirmation (kind id)
    | none ↦ not (is_request (kind_of_name c.name))
  ])
  | none ↦ false
]

entry_table : every entry_test all_known_commands ≡ true
unfolding every entry_test all_known_commands known kind expected_confirmation
entry_table = refl

-- What `known` finds is an entry of the table, under the id it was looked up by.
known-entry : (id : ℕ) {c : KnownCommand} → known id ≡ some c → (entry_test c ≡ true) × (c.id ≡ id)
unfolding known
known-entry id {c} e =
    let both =
      find-every (λ command. command.id == id) entry_test all_known_commands entry_table e in
    (both.0, (==_iff c.id id).0 both.1)

is_request-eq : (k : CommandKind) → is_request k ≡ true → k ≡ request
is_request-eq request h = refl
is_request-eq _ h = cc

is_confirmation-eq : (k : CommandKind) → is_confirmation k ≡ true → k ≡ confirmation
is_confirmation-eq confirmation h = refl
is_confirmation-eq _ h = cc

request_not :
    (c : KnownCommand)
    → entry_test c ≡ true
    → confirmation_of_name c.name ≡ none
    → is_request (kind_of_name c.name) ≡ false
unfolding entry_test
request_not c h e = ground arith

unknown_not : (id : ℕ) → known id ≡ none → ¬ (kind id ≡ request)
unfolding kind
unknown_not id e h = ground arith

-- The test of a found entry, read as statements.
entry_facts :
    (c : KnownCommand)
    → entry_test c ≡ true
    → (kind_of_name c.name ≡ request → (id : ℕ) × (confirmation_of_name c.name ≡ some id))
      × ((id : ℕ)
          → confirmation_of_name c.name ≡ some id
          → (kind_of_name c.name ≡ request) × (kind id ≡ confirmation))
unfolding entry_test
entry_facts c h = (
  λ r. elim (Option-cases (confirmation_of_name c.name)) [
    | inl missing ↦ cc (sym (request_not c h missing) ∙ ap is_request r)
    | inr found ↦ found
  ],
  λ id e. (is_request-eq _ (ground arith), is_confirmation-eq _ (ground arith)),
)

-- Only requests have an expected confirmation, and it is a confirmation.
pub expected_confirmation-kind :
    (id : ℕ) {c : ℕ}
    → expected_confirmation id ≡ some c
    → (kind id ≡ request) × (kind c ≡ confirmation)
unfolding expected_confirmation
expected_confirmation-kind id {c} h = elim (Option-cases (known id)) [
  | inl missing ↦ cc (missing, h)
  | inr (entry, found) ↦
      let facts = entry_facts entry (known-entry id found).0 in
      let (is_req, is_cfm) = facts.1 c (rw (found, expected_confirmation) at h) in
      (unfold kind in rw (found, kind) is_req, is_cfm)
]

-- Every command of kind request has an expected confirmation.
pub request-expected_confirmation :
    (id : ℕ) → kind id ≡ request → (c : ℕ) × (expected_confirmation id ≡ some c)
unfolding expected_confirmation kind
request-expected_confirmation id h = elim (Option-cases (known id)) [
  | inl missing ↦ absurd (unknown_not id missing h)
  | inr (entry, found) ↦
      let facts = entry_facts entry (known-entry id found).0 in
      let (c, e) = facts.0 (rw (found, kind) at h) in (c, rw (found, expected_confirmation) e)
]
