-- ===== src/Realtime.antt =====
-- Server-sent events: src/realtime/sse.service.ts. The map from users to their streams is the list of
-- its entries in the order in which they were set; a stream is a number, and whether it has ended is
-- an argument of each write.
pub mod Streams
pub mod Delivery
pub mod Heartbeat
mod Tests
use gbi_backend.Base.{
  ℕ, ◌+◌, Bool, true, false, not, Option, none, some, List, [], ◌∷◌, ◌++◌, ◌==◌, is_some, length,
  select, update_where, remove_where, if◌then◌else◌,
}

pub record Client : Type 0 where
  pub user_id : ℕ
  pub streams : List ℕ

-- `heartbeat` is whether the timer runs.
pub record State : Type 0 where
  pub clients : List Client
  pub heartbeat : Bool

abbrev pub of_user : ℕ → Client → Bool
of_user user_id c = c.user_id == user_id

-- `clients.get`
abbrev pub streams_of : ℕ → List Client → Option (List ℕ)
streams_of user_id [] = none
streams_of user_id (c ∷ rest) =
    let later = streams_of user_id rest in if of_user user_id c then some c.streams else later

-- `clients.set` of a user who is there or not
abbrev pub put : ℕ → List ℕ → List Client → List Client
put user_id streams clients =
    if is_some (streams_of user_id clients)
    then update_where (of_user user_id) (λ c. record c { streams = streams }) clients
    else clients ++ record { user_id = user_id; streams = streams } ∷ []

-- The list without the first such stream: `indexOf` and `splice`
abbrev pub without_first : ℕ → List ℕ → List ℕ
without_first res [] = []
without_first res (r ∷ rest) =
    let later = without_first res rest in if r == res then rest else r ∷ later

abbrev pub is_nil : List ℕ → Bool
is_nil [] = true
is_nil (r ∷ rest) = false

abbrev pub total_connections : List Client → ℕ
total_connections [] = 0
total_connections (c ∷ rest) = length c.streams + total_connections rest

abbrev pub or_nil : Option (List ℕ) → List ℕ
or_nil none = []
or_nil (some streams) = streams

unfoldable pub add_client : (user_id res : ℕ) → State → State
add_client user_id res s = record s {
  clients = put user_id (or_nil (streams_of user_id s.clients) ++ res ∷ []) s.clients;
}

-- The entry of a user whose streams are left as given: none is no entry.
abbrev pub set_or_delete : ℕ → List ℕ → List Client → List Client
set_or_delete user_id streams clients =
    if is_nil streams then remove_where (of_user user_id) clients else put user_id streams clients

abbrev pub stop_heartbeat : State → State
stop_heartbeat s = record s { heartbeat = false }

abbrev pub start_heartbeat : State → State
start_heartbeat s = record s { heartbeat = true }

unfoldable pub remove_client : (user_id res : ℕ) → State → State
remove_client user_id res s = elim (streams_of user_id s.clients) [
  | none ↦ s
  | some streams ↦
      let left = record s {
        clients = set_or_delete user_id (without_first res streams) s.clients;
      } in
      if total_connections left.clients == 0 then stop_heartbeat left else left
]

module _ (ended : ℕ → Bool) where
  -- The streams that a message for the user is written to
  unfoldable pub send_to_local_clients : ℕ → State → List ℕ
  send_to_local_clients user_id s =
      select (λ r. not (ended r)) (or_nil (streams_of user_id s.clients))

  abbrev all_streams : List Client → List ℕ
  all_streams [] = []
  all_streams (c ∷ rest) = c.streams ++ all_streams rest

  -- The streams that get a heartbeat when its interval is over
  unfoldable pub tick : State → List ℕ
  tick s = if s.heartbeat then select (λ r. not (ended r)) (all_streams s.clients) else []

pub data SseCall : Type 0 where
  adding removing : (user_id res : ℕ) → SseCall

unfoldable pub run_call : SseCall → State → State
run_call (adding user_id res) s = add_client user_id res s
run_call (removing user_id res) s = remove_client user_id res s

unfoldable pub run_calls : List SseCall → State → State
run_calls [] s = s
run_calls (c ∷ rest) s = run_calls rest (run_call c s)

-- `onModuleInit`
unfoldable pub on_module_init : State
on_module_init = start_heartbeat (record { clients = []; heartbeat = false })
