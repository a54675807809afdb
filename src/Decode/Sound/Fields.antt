-- ===== src/Decode/Sound/Fields.antt =====
-- The fields of a decoded response that can be relied on, and the steps that read them.
use velux2mqtt.Types.FixedString.{until_nul}
use velux2mqtt.Decode.Fields.{read_u16}
use velux2mqtt.Response.Scenes.{SceneSummary}
use velux2mqtt.Types.Records.{GroupInformation}
use velux2mqtt.Response.{
  group_change, Response, activation_log_entry, command_accepted, command_remaining_time,
  command_run_status, contact_input_links, group_information, limitation_status, node_information,
  node_information_changed, password_changed_notification, product_group_result, scene_information,
  scene_list, scene_session_result, session_command_result, session_finished, status_accepted,
  status_notification, wink_finished,
}
use velux2mqtt.Types.Sessions
use velux2mqtt.Decode.Fields.{session_id, session_id_at, require, entries, try_entries}
use velux2mqtt.Types.FixedString.{decode_fixed_string}
use velux2mqtt.Prelude.{
  is_utf8, ◌+◌, ◌<◌, Bytes, ap, length, refl, suc, true, zero, ℕ, ◌≡◌, ◌≤◌, Option-split, arith,
  if_cases, some, All, Option, none, List,
}
use velux2mqtt.Error.{◌>>=◌, Result, ok}
use velux2mqtt.Decode.Arms.{Yields, after, checked, carried}

-- A session id is not zero, a list is no longer than its response allows, and a name is text.
abbrev pub IsNamed : Option GroupInformation → Type 0
IsNamed none = Unit
IsNamed (some information) = is_utf8 information.name ≡ true

abbrev pub IsSound : Response → Type 0
IsSound (password_changed_notification n) = is_utf8 n.new_password ≡ true
IsSound (node_information i) = (length i.aliases ≤ 5) × (is_utf8 i.name ≡ true)
IsSound (node_information_changed c) = is_utf8 c.name ≡ true
IsSound (group_information n) = is_utf8 n.information.name ≡ true
IsSound (session_command_result r) = 0 < r.session_id
IsSound (wink_finished session) = 0 < session
IsSound (limitation_status l) = 0 < l.session_id
IsSound (scene_list l) =
    (length l.scenes ≤ 3) × All (λ (s : SceneSummary). is_utf8 s.name ≡ true) l.scenes
IsSound (group_change c) = IsNamed c.information
IsSound (scene_information i) = (length i.nodes ≤ 45) × (is_utf8 i.name ≡ true)
IsSound (scene_session_result r) = 0 < r.session_id
IsSound (product_group_result r) = 0 < r.session_id
IsSound (contact_input_links links) = length links ≤ 10
IsSound (activation_log_entry e) = 0 < e.session_id
IsSound (command_accepted session status) = 0 < session
IsSound (status_accepted session status) = 0 < session
IsSound (command_run_status s) = 0 < s.session_id
IsSound (command_remaining_time session node_id parameter seconds) = 0 < session
IsSound (session_finished session) = 0 < session
IsSound (status_notification s) = 0 < s.session_id
IsSound _ = Unit

positive : (value session : ℕ) → Sessions.session_id value ≡ some session → 0 < session
unfolding Sessions.session_id
positive value session h = ground arith

pub session_id_at-Yields :
    (payload : Bytes) (offset command : ℕ)
    → Yields (λ session. 0 < session) (session_id_at payload offset command)
unfolding session_id_at Sessions.session_id
session_id_at-Yields payload offset command =
    after (λ session. 0 < session) (require payload (offset + 2) command) _
      (λ u e.
        Option-split (Yields (λ session. 0 < session))
          (Sessions.session_id (read_u16 payload offset)) _ _ (λ none_found. tt)
          (λ session found. positive (read_u16 payload offset) session found))

pub session_id-Yields :
    (payload : Bytes) (command : ℕ) → Yields (λ session. 0 < session) (session_id payload command)
unfolding session_id
session_id-Yields payload command =
    after (λ session. 0 < session) (require payload 2 command) _
      (λ u e. session_id_at-Yields payload 0 command)

pub decode_fixed_string-Yields :
    (field : Bytes) → Yields (λ text. is_utf8 text ≡ true) (decode_fixed_string field)
unfolding decode_fixed_string
decode_fixed_string-Yields field =
    if_cases (Yields (λ text. is_utf8 text ≡ true)) (is_utf8 (until_nul field)) (λ e. e) (λ e. tt)

pub length-entries :
    {A : Type 0} (read : ℕ → A) (offset stride count : ℕ)
    → length (entries read offset stride count) ≡ count
unfolding entries
length-entries read offset stride zero = refl
length-entries read offset stride (suc count) =
    ap suc (length-entries read (offset + stride) stride count)

-- As many items as are read, and each with what a single one has.
abbrev Counts : {A : Type 0} → (A → Type 0) → ℕ → List A → Type 0
Counts P count items = (length items ≡ count) × All P items

pub try_entries-Yields :
    {A : Type 0} (P : A → Type 0) (read : ℕ → Result A) (offset stride count : ℕ)
    → ((at : ℕ) → Yields P (read at))
    → Yields (λ items. (length items ≡ count) × All P items) (try_entries read offset stride count)
unfolding try_entries
try_entries-Yields P read offset stride zero h = (refl, tt)
try_entries-Yields P read offset stride (suc count) h =
    carried (Counts P (suc count)) P (read offset) _ (h offset) (λ first p.
      carried (Counts P (suc count)) (Counts P count)
        (try_entries read (offset + stride) stride count) _
        (try_entries-Yields P read (offset + stride) stride count h)
        (λ rest q. (ap suc q.0, (p, q.1))))

pub sound :
    {A : Type 0} (m : Result A) (value : A → Response)
    → ((a : A) → IsSound (value a))
    → Yields IsSound (m >>= λ (a : A). ok (value a))
sound m value h = checked IsSound m h

-- A step that finds a session, or a text, and the response made of it.
module _ (command : ℕ) (payload : Bytes) where
  pub with_session :
      (value : ℕ → Response)
      → ((session : ℕ) → 0 < session → IsSound (value session))
      → Yields IsSound (session_id payload command >>= λ session. ok (value session))
  with_session value h =
      carried IsSound (λ session. 0 < session) (session_id payload command) _
        (session_id-Yields payload command) h

  pub with_session_at :
      (offset : ℕ) (value : ℕ → Response)
      → ((session : ℕ) → 0 < session → IsSound (value session))
      → Yields IsSound (session_id_at payload offset command >>= λ session. ok (value session))
  with_session_at offset value h =
      carried IsSound (λ session. 0 < session) (session_id_at payload offset command) _
        (session_id_at-Yields payload offset command) h

  pub with_text :
      (field : Bytes) (value : Bytes → Response)
      → ((text : Bytes) → is_utf8 text ≡ true → IsSound (value text))
      → Yields IsSound (decode_fixed_string field >>= λ text. ok (value text))
  with_text field value h =
      carried IsSound (λ text. is_utf8 text ≡ true) (decode_fixed_string field) _
        (decode_fixed_string-Yields field) h
