-- ===== src/CommandId.antt =====
-- src/klf200/command_id.rs: the registry of command ids, their kinds and their confirmations. The
-- `Display` of a command id is not modelled.
pub mod Constants
pub mod Table
pub mod Laws
use mathlib.Core.Option
use velux2mqtt.CommandId.Table.{KnownCommand, all_known_commands}
use velux2mqtt.Prelude.{
  ◌&&◌, ◌==◌, Bool, Bytes, List, Option, [], ascii, if◌then◌else◌, false, map, none, some, true, ℕ,
  ◌∷◌,
}

pub data CommandKind : Type 0 where
  request confirmation notification unknown : CommandKind

unfoldable pub bytes_eq : Bytes → Bytes → Bool
bytes_eq [] [] = true
bytes_eq (x ∷ xs) (y ∷ ys) = x == y && bytes_eq xs ys
bytes_eq _ _ = false

-- `str::strip_suffix`
unfoldable pub strip_suffix : Bytes → Bytes → Option Bytes
unfolding bytes_eq
strip_suffix suffix [] = if bytes_eq [] suffix then some [] else none
strip_suffix suffix (c ∷ cs) =
    let rest = Option.map (λ p. c ∷ p) (strip_suffix suffix cs) in
    if bytes_eq (c ∷ cs) suffix then some [] else rest

-- `str::ends_with`
abbrev pub ends_with : Bytes → Bytes → Bool
ends_with suffix name = elim (strip_suffix suffix name) [ some _ ↦ true | none ↦ false ]

-- `KnownCommand::kind`
unfoldable pub kind_of_name : Bytes → CommandKind
unfolding strip_suffix
kind_of_name name =
    if ends_with (ascii "_REQ") name
    then request
    else if ends_with (ascii "_CFM") name
    then confirmation
    else if ends_with (ascii "_NTF") name
    then notification
    else unknown

-- `iter().find(..)`
unfoldable pub find : (KnownCommand → Bool) → List KnownCommand → Option KnownCommand
find p [] = none
find p (c ∷ cs) = let rest = find p cs in if p c then some c else rest

-- `CommandId::known`
unfoldable pub known : ℕ → Option KnownCommand
unfolding find
known id = find (λ command. command.id == id) all_known_commands

-- `CommandId::name`
abbrev pub name : ℕ → Option Bytes
name id = Option.map (λ (c : KnownCommand). c.name) (known id)

-- `CommandId::kind`
unfoldable pub kind : ℕ → CommandKind
unfolding kind_of_name
kind id = elim (known id) [ some c ↦ kind_of_name c.name | none ↦ unknown ]

-- `candidate.name.strip_suffix("_CFM") == Some(request_prefix)`
unfoldable pub confirms : Bytes → KnownCommand → Bool
unfolding strip_suffix
confirms request_prefix candidate = elim (strip_suffix (ascii "_CFM") candidate.name) [
  | some prefix ↦ bytes_eq prefix request_prefix
  | none ↦ false
]

-- The search of `expected_confirmation`, for the name of the request.
unfoldable pub confirmation_of_name : Bytes → Option ℕ
unfolding strip_suffix confirms find
confirmation_of_name request_name = elim (strip_suffix (ascii "_REQ") request_name) [
  | some request_prefix ↦
      Option.map (λ (c : KnownCommand). c.id) (find (confirms request_prefix) all_known_commands)
  | none ↦ none
]

-- `CommandId::expected_confirmation`
unfoldable pub expected_confirmation : ℕ → Option ℕ
unfolding confirmation_of_name
expected_confirmation id = elim (known id) [ some c ↦ confirmation_of_name c.name | none ↦ none ]
