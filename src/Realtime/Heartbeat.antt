-- ===== src/Realtime/Heartbeat.antt =====
-- The heartbeat of src/realtime/sse.service.ts once the last stream was closed.
use gbi_backend.Base.{
  ℕ, ◌≡◌, inl, inr, Bool, false, some, List, [], ◌∷◌, Option-cases, Bool-cases, arith, ◌==◌,
}
use gbi_backend.Realtime.{
  State, SseCall, adding, removing, streams_of, set_or_delete, without_first, total_connections,
  add_client, remove_client, tick, run_call, run_calls,
}

remove_client_stops :
    (user_id res : ℕ) (s : State) (streams : List ℕ)
    → streams_of user_id s.clients ≡ some streams
    → total_connections (remove_client user_id res s).clients ≡ 0
    → (remove_client user_id res s).heartbeat ≡ false
unfolding remove_client
remove_client_stops user_id res s streams e z =
    elim (Bool-cases
      (total_connections (set_or_delete user_id (without_first res streams) s.clients) == 0)) [
        | inl k ↦ ground arith
        | inr k ↦ absurd (ground arith)
      ]

-- No call starts the heartbeat.
run_call-heartbeat :
    (c : SseCall) (s : State) → s.heartbeat ≡ false → (run_call c s).heartbeat ≡ false
unfolding run_call add_client remove_client
run_call-heartbeat (adding user_id res) s h = h
run_call-heartbeat (removing user_id res) s h = elim (Option-cases (streams_of user_id s.clients)) [
  | inl e ↦ ground arith
  | inr (streams, e) ↦
      elim (Bool-cases
        (total_connections (set_or_delete user_id (without_first res streams) s.clients) == 0)) [
          | inl k ↦ ground arith
          | inr k ↦ ground arith
        ]
]

run_calls-heartbeat :
    (calls : List SseCall) (s : State) → s.heartbeat ≡ false → (run_calls calls s).heartbeat ≡ false
unfolding run_calls
run_calls-heartbeat [] s h = h
run_calls-heartbeat (c ∷ rest) s h =
    run_calls-heartbeat rest (run_call c s) (run_call-heartbeat c s h)

-- Once the stream of a user who had one was closed and no connection was left, no stream ever
-- gets a heartbeat again, whatever streams are opened and closed later.
pub remove_client-tick :
    (ended : ℕ → Bool) (user_id res : ℕ) (s : State) (streams : List ℕ) (calls : List SseCall)
    → streams_of user_id s.clients ≡ some streams
    → total_connections (remove_client user_id res s).clients ≡ 0
    → tick ended (run_calls calls (remove_client user_id res s)) ≡ []
unfolding tick
remove_client-tick ended user_id res s streams calls e z =
    let h =
      run_calls-heartbeat calls (remove_client user_id res s)
        (remove_client_stops user_id res s streams e z) in
    ground arith
