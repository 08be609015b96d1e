-- ===== src/Realtime/Delivery.antt =====
-- Which streams of src/realtime/sse.service.ts a message for a user reaches.
use gbi_backend.Base.{
  ℕ, Distinct, ◌≡◌, refl, ap, ◌∙◌, inl, inr, Bool, not, none, some, List, [], ◌∷◌, ◌++◌,
  Option-cases, Bool-cases, arith, ◌==◌, is_some, select, update_where, remove_where, if◌then◌else◌,
}
use gbi_backend.Realtime.Streams.{open_streams, opened, spliced, spliced-open_streams}
use gbi_backend.Realtime.{
  Client, State, SseCall, adding, removing, of_user, streams_of, put, set_or_delete, without_first,
  or_nil, total_connections, add_client, remove_client, send_to_local_clients, run_call, run_calls,
}

abbrev seen : ℕ → State → List ℕ
seen user_id s = or_nil (streams_of user_id s.clients)

streams_of-append :
    (u : ℕ) (t : List Client) (c : Client)
    → streams_of u (t ++ c ∷ []) ≡ (
        if is_some (streams_of u t)
        then streams_of u t
        else if of_user u c
        then some c.streams
        else none)
streams_of-append u [] c = elim (Bool-cases (of_user u c)) [
  | inl e ↦ ground arith
  | inr e ↦ ground arith
]
streams_of-append u (x ∷ t) c =
    let more = streams_of-append u t c in
    elim (Bool-cases (of_user u x)) [ inl e ↦ ground arith | inr e ↦ ground arith ]

streams_of-update_where :
    (u v : ℕ) (streams : List ℕ) (t : List Client)
    → streams_of u (update_where (of_user v) (λ c. record c { streams = streams }) t) ≡ (
        if v == u
        then (if is_some (streams_of u t) then some streams else none)
        else streams_of u t)
streams_of-update_where u v streams [] = elim (Bool-cases (v == u)) [
  | inl e ↦ ground arith
  | inr e ↦ ground arith
]
streams_of-update_where u v streams (x ∷ t) =
    let more = streams_of-update_where u v streams t in
    elim (Bool-cases (v == u)) [
      | inl e ↦ elim (Bool-cases (of_user u x)) [ inl k ↦ ground arith | inr k ↦ ground arith ]
      | inr e ↦ elim (Bool-cases (of_user u x)) [
        | inl k ↦ ground arith
        | inr k ↦ elim (Bool-cases (of_user v x)) [ inl l ↦ ground arith | inr l ↦ ground arith ]
      ]
    ]

streams_of-remove_where :
    (u v : ℕ) (t : List Client)
    → streams_of u (remove_where (of_user v) t) ≡ (if v == u then none else streams_of u t)
streams_of-remove_where u v [] = elim (Bool-cases (v == u)) [
  | inl e ↦ ground arith
  | inr e ↦ ground arith
]
streams_of-remove_where u v (x ∷ t) =
    let more = streams_of-remove_where u v t in
    elim (Bool-cases (of_user v x)) [
      | inl l ↦ elim (Bool-cases (v == u)) [ inl e ↦ ground arith | inr e ↦ ground arith ]
      | inr l ↦ elim (Bool-cases (v == u)) [ inl e ↦ ground arith | inr e ↦ ground arith ]
    ]

streams_of-put :
    (u v : ℕ) (streams : List ℕ) (t : List Client)
    → streams_of u (put v streams t) ≡ (if v == u then some streams else streams_of u t)
streams_of-put u v streams t =
    let a = streams_of-append u t (record { user_id = v; streams = streams }) in
    let b = streams_of-update_where u v streams t in
    elim (Bool-cases (v == u)) [
      | inl e ↦
          let q : v ≡ u = ground arith in
          elim (Option-cases (streams_of u t)) [
            | inl k ↦ let l : streams_of v t ≡ none = rw q k in ground arith
            | inr (x, k) ↦ let l : streams_of v t ≡ some x = rw q k in ground arith
          ]
      | inr e ↦ elim (Option-cases (streams_of v t)) [
        | inl l ↦ elim (Option-cases (streams_of u t)) [
          | inl k ↦ ground arith
          | inr (x, k) ↦ ground arith
        ]
        | inr (y, l) ↦ ground arith
      ]
    ]

-- A call changes the streams of its user only.
add_client-seen :
    (u v res : ℕ) (s : State)
    → seen u (add_client v res s) ≡ (if v == u then seen u s ++ res ∷ [] else seen u s)
unfolding add_client
add_client-seen u v res s =
    let p = streams_of-put u v (seen v s ++ res ∷ []) s.clients in
    elim (Bool-cases (v == u)) [
      | inl e ↦
          let q : v ≡ u = ground arith in
          let w : seen v s ≡ seen u s = ap (λ x. seen x s) q in ground arith
      | inr e ↦ ground arith
    ]

set_or_delete-seen :
    (u v : ℕ) (streams : List ℕ) (t : List Client)
    → or_nil (streams_of u (set_or_delete v streams t))
      ≡ (if v == u then streams else or_nil (streams_of u t))
set_or_delete-seen u v [] t =
    let p = streams_of-remove_where u v t in
    elim (Bool-cases (v == u)) [ inl e ↦ ground arith | inr e ↦ ground arith ]
set_or_delete-seen u v (r ∷ rest) t =
    let p = streams_of-put u v (r ∷ rest) t in
    elim (Bool-cases (v == u)) [ inl e ↦ ground arith | inr e ↦ ground arith ]

remove_client-seen :
    (u v res : ℕ) (s : State)
    → seen u (remove_client v res s) ≡ (if v == u then without_first res (seen u s) else seen u s)
unfolding remove_client
remove_client-seen u v res s = elim (Option-cases (streams_of v s.clients)) [
  | inl l ↦ elim (Bool-cases (v == u)) [
    | inl e ↦
        let q : v ≡ u = ground arith in
        let k : streams_of u s.clients ≡ none = rw (← q) l in ground arith
    | inr e ↦ ground arith
  ]
  | inr (streams, l) ↦
      let d = set_or_delete-seen u v (without_first res streams) s.clients in
      elim (Bool-cases
        (total_connections (set_or_delete v (without_first res streams) s.clients) == 0)) [
          | inl z ↦ elim (Bool-cases (v == u)) [
            | inl e ↦
                let q : v ≡ u = ground arith in
                let k : streams_of u s.clients ≡ some streams = rw (← q) l in ground arith
            | inr e ↦ ground arith
          ]
          | inr z ↦ elim (Bool-cases (v == u)) [
            | inl e ↦
                let q : v ≡ u = ground arith in
                let k : streams_of u s.clients ≡ some streams = rw (← q) l in ground arith
            | inr e ↦ ground arith
          ]
        ]
]

run_calls-seen :
    (u : ℕ) (calls : List SseCall) (s : State)
    → seen u (run_calls calls s) ≡ spliced u calls (seen u s)
unfolding run_calls run_call spliced
run_calls-seen u [] s = refl
run_calls-seen u (adding v res ∷ rest) s =
    run_calls-seen u rest (add_client v res s) ∙ rw (add_client-seen u v res s)
run_calls-seen u (removing v res ∷ rest) s =
    run_calls-seen u rest (remove_client v res s) ∙ rw (remove_client-seen u v res s)

-- After any sequence of opened and closed streams in which the streams of a user, those open
-- before and those opened, are all different, a message for this user is written to the streams
-- that the calls of this user alone left open, in the order in which they were opened, but for
-- those that have ended.
pub send_to_local_clients-run_calls :
    (ended : ℕ → Bool) (user_id : ℕ) (calls : List SseCall) (s : State)
    → Distinct (λ (r : ℕ). r) (or_nil (streams_of user_id s.clients) ++ opened user_id calls)
    → send_to_local_clients ended user_id (run_calls calls s)
      ≡ select
          (λ r. not (ended r))
          (open_streams user_id calls (or_nil (streams_of user_id s.clients)))
unfolding send_to_local_clients
send_to_local_clients-run_calls ended user_id calls s d =
    rw (run_calls-seen user_id calls s, spliced-open_streams user_id calls (seen user_id s) d)
