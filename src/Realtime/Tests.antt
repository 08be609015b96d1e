-- ===== src/Realtime/Tests.antt =====
-- Runs of the server-sent events (src/realtime/sse.service.ts).
use gbi_backend.Base.{arith, ℕ, ◌≡◌, refl, Bool, not, List, [], ◌∷◌, ◌==◌, select}
use gbi_backend.Realtime.{
  SseCall, adding, removing, or_nil, streams_of, on_module_init, run_call, run_calls, add_client,
  remove_client, send_to_local_clients, tick,
}
use gbi_backend.Realtime.Streams.{open_streams, opened}
use gbi_backend.Realtime.Delivery.{send_to_local_clients-run_calls}
use gbi_backend.Realtime.Heartbeat.{remove_client-tick}

abbrev ends : ℕ → Bool
ends r = r == 12

abbrev story : List SseCall
story = adding 1 10 ∷ adding 2 20 ∷ adding 1 11 ∷ adding 1 12 ∷ removing 1 10 ∷ removing 2 20 ∷ []

story_runs : send_to_local_clients ends 1 (run_calls story on_module_init) ≡ 11 ∷ []
unfolding send_to_local_clients run_calls run_call on_module_init add_client remove_client
story_runs = refl

send_to_local_clients-run_calls_example :
    send_to_local_clients ends 1 (run_calls story on_module_init)
    ≡ select
        (λ r. not (ends r))
        (open_streams 1 story (or_nil (streams_of 1 on_module_init.clients)))
unfolding on_module_init opened
send_to_local_clients-run_calls_example =
    send_to_local_clients-run_calls ends 1 story on_module_init (omega arith)

-- A stream that is opened before the last one is closed gets its heartbeats.
tick_runs :
    tick ends (run_calls (adding 1 10 ∷ adding 2 20 ∷ removing 1 10 ∷ []) on_module_init) ≡ 20 ∷ []
unfolding tick run_calls run_call on_module_init add_client remove_client
tick_runs = refl

-- One that is opened after it does not.
remove_client-tick_example :
    tick ends (run_calls (adding 2 20 ∷ []) (remove_client 1 10 (add_client 1 10 on_module_init)))
    ≡ []
unfolding on_module_init add_client remove_client
remove_client-tick_example =
    remove_client-tick ends 1 10 (add_client 1 10 on_module_init) (10 ∷ []) (adding 2 20 ∷ []) refl
      refl
