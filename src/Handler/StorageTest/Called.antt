-- ===== src/Handler/StorageTest/Called.antt =====
-- The callback of a storage test in httpserver/request_handler.cpp is called, and when a retry is final.
use beldex_storage_server.Prelude.{
  ℕ, ◌+◌, ◌++◌, ◌<◌, some, ap, sym, ◌∙◌, ◌-◌, ◌≤◌, ◌≡◌, ◌≢◌, ◌⊎◌, inl, inr, refl, true, false, ◌&&◌,
  none, List, [], ◌∷◌, Bytes, ltb, In, All, Bool-cases, Option-cases, arith, subst,
}
use beldex_storage_server.Keys.{LegacyPubkey}
use beldex_storage_server.MasterNode.{Node}
use beldex_storage_server.MasterNode.StorageTest.{MessageTestStatus, success, retry, wrong_req}
use beldex_storage_server.Handler.StorageTest.{
  test_retry_period, Callback, called, is_retry, attempt, goes_on, retry_calls,
  process_storage_test_req,
}

module _ (fuel : ℕ) (mt19937_64 : ℕ → ℕ → ℕ) (height : ℕ) (tester : LegacyPubkey)
    (msg_hash_hex : Bytes) (started : ℕ) where
  -- A call of the timer that ends the retries.
  abbrev pub Ends : ℕ × Node → Type 0
  Ends call = (started + test_retry_period ≤ call.0) ⊎ (call.1.shutting_down ≡ true)

  -- A call of the timer that goes on: the attempt is to be retried, in time, with the node up.
  abbrev pub Waits : ℕ × Node → Type 0
  Waits call =
      ((answer : Bytes) × (attempt fuel mt19937_64 height tester msg_hash_hex started call.1
          ≡ some (retry, answer)))
      × (call.0 < started + test_retry_period)
      × (call.1.shutting_down ≡ false)

  -- The callback is called by the first call of the timer that does not go on, with what its attempt
  -- gave.
  abbrev pub Retried : List (ℕ × Node) → Callback → Type 0
  Retried calls callback =
      (before after : List (ℕ × Node)) × (call : ℕ × Node) × (status : MessageTestStatus)
      × (answer : Bytes) × (calls ≡ before ++ call ∷ after)
      × All Waits before
      × (attempt fuel mt19937_64 height tester msg_hash_hex started call.1 ≡ some (status, answer))
      × ((is_retry status ≡ false) ⊎ Ends call)
      × (callback ≡ called status answer (call.0 - started))

  -- The callback is called after the first attempt, at `now`, or by the timer.
  abbrev pub Called : Node → ℕ → List (ℕ × Node) → Callback → Type 0
  Called node now calls callback =
      ((status : MessageTestStatus) × (answer : Bytes) × (attempt fuel mt19937_64 height tester
            msg_hash_hex started node
          ≡ some (status, answer))
        × (is_retry status ≡ false)
        × (callback ≡ called status answer (now - started)))
      ⊎ (((answer : Bytes) × (attempt fuel mt19937_64 height tester msg_hash_hex started node
              ≡ some (retry, answer)))
          × Retried calls callback)

  Retried-cons :
      (call : ℕ × Node) (calls : List (ℕ × Node)) (callback : Callback)
      → Waits call
      → Retried calls callback
      → Retried (call ∷ calls) callback
  Retried-cons call calls callback w
        (before, after, c, status, answer, e, ws, a, last, called_back) =
      (
        call ∷ before,
        after,
        c,
        status,
        answer,
        ap (λ cs. call ∷ cs) e,
        (w, ws),
        a,
        last,
        called_back,
      )

  -- An attempt that does not run out of fuel.
  abbrev pub Answers : ℕ × Node → Type 0
  Answers call = attempt fuel mt19937_64 height tester msg_hash_hex started call.1 ≢ none

  retry_of : (status : MessageTestStatus) → is_retry status ≡ true → status ≡ retry
  retry_of success h = cc
  retry_of wrong_req h = cc
  retry_of retry h = refl

  -- A call that does not let the timer go on has its reason.
  stopped :
      (now : ℕ) (node : Node) (status : MessageTestStatus)
      → goes_on fuel mt19937_64 height tester msg_hash_hex started now node status ≡ false
      → (is_retry status ≡ false) ⊎ Ends (now, node)
  stopped now node success h = inl refl
  stopped now node wrong_req h = inl refl
  stopped now node retry h = elim (Bool-cases node.shutting_down) [
    | inl s ↦ inr (inr s)
    | inr s ↦ elim (Bool-cases (ltb (now - started) test_retry_period)) [
      | inl l ↦ let no : true ≡ false = rw (s, l) at h in absurd (ground arith)
      | inr l ↦ inr (inl (ground arith))
    ]
  ]

  going :
      (now : ℕ) (node : Node) (status : MessageTestStatus)
      → goes_on fuel mt19937_64 height tester msg_hash_hex started now node status ≡ true
      → (status ≡ retry) × (now < started + test_retry_period) × (node.shutting_down ≡ false)
  going now node success h = absurd (ground arith)
  going now node wrong_req h = absurd (ground arith)
  going now node retry h = elim (Bool-cases node.shutting_down) [
    | inl down ↦
        let no : (ltb (now - started) test_retry_period && false) ≡ true = rw down at h in
        absurd (ground arith)
    | inr up ↦ elim (Bool-cases (ltb (now - started) test_retry_period)) [
      | inl l ↦ (refl, ground arith, up)
      | inr l ↦ let no : false ≡ true = rw (up, l) at h in absurd (ground arith)
    ]
  ]

  not_ending : (call : ℕ × Node) → Waits call → Ends call → ⊥
  not_ending call ((answer, e), early, up) (inl late) = omega (arith, late, early)
  not_ending call ((answer, e), early, up) (inr down) =
      let no : true ≡ false = sym down ∙ up in ground arith

  retry_calls-Retried :
      (calls : List (ℕ × Node))
      → All Answers calls
      → (last : ℕ × Node) → In last calls
      → Ends last
      → Retried calls (retry_calls fuel mt19937_64 height tester msg_hash_hex started calls)
  unfolding retry_calls
  retry_calls-Retried [] a last i ends = absurd i
  retry_calls-Retried ((now, node) ∷ calls) (x, xs) last i ends =
      elim (Option-cases (attempt fuel mt19937_64 height tester msg_hash_hex started node)) [
        | inl e ↦ absurd (x e)
        | inr ((status, answer), e) ↦
            elim (Bool-cases
              (goes_on fuel mt19937_64 height tester msg_hash_hex started now node status)) [
                | inr stop ↦
                    rw (e, stop, retry_calls)
                      (
                        [],
                        calls,
                        (now, node),
                        status,
                        answer,
                        refl,
                        tt,
                        e,
                        stopped now node status stop,
                        refl,
                      )
                | inl go ↦
                    let (again, early, up) = going now node status go in
                    let w : Waits (now, node) = ((answer, rw again at e), early, up) in
                    rw (e, go, retry_calls)
                      (Retried-cons (now, node) calls _ w
                        (retry_calls-Retried calls xs last
                          (elim i [
                            | inl same ↦ absurd (not_ending (now, node) w (subst Ends same ends))
                            | inr j ↦ j
                          ])
                          ends))
              ]
      ]

  -- If no attempt runs out of fuel, and a call of the timer comes 55 seconds after the start or finds
  -- the node shutting down, the callback is called: after the first attempt if that is not to be
  -- retried, and else by the first call of the timer whose attempt is not to be retried or that comes
  -- 55 seconds after the start or finds the node shutting down. It gets the status, the data and the
  -- time of that attempt.
  pub process_storage_test_req-Called :
      (node : Node) (now : ℕ) (calls : List (ℕ × Node))
      → All Answers ((started, node) ∷ calls)
      → (last : ℕ × Node) → In last calls
      → Ends last
      → Called node now calls (
          process_storage_test_req fuel mt19937_64 height tester msg_hash_hex started node now
            calls)
  unfolding process_storage_test_req
  process_storage_test_req-Called node now calls (x, xs) last i ends =
      elim (Option-cases (attempt fuel mt19937_64 height tester msg_hash_hex started node)) [
        | inl e ↦ absurd (x e)
        | inr ((status, answer), e) ↦ elim (Bool-cases (is_retry status)) [
          | inl again ↦
              let same = retry_of status again in
              rw (e, again, process_storage_test_req)
                (inr (
                  (answer, ap (λ t. some (t, answer)) same),
                  retry_calls-Retried calls xs last i ends,
                ))
          | inr done ↦
              rw (e, done, process_storage_test_req) (inl (status, answer, refl, done, refl))
        ]
      ]
