-- ===== src/HttpsServer/Calls/Once.antt =====
-- How often httpserver/https_server.cpp answers a request.
use beldex_storage_server.Prelude.{
  ℕ, ◌+◌, ◌≡◌, ◌≤◌, refl, true, false, ◌||◌, Option, none, some, List, [], ◌∷◌, ◌++◌, length,
  length-append, arith, Bool-cases, inl, inr,
}
use beldex_storage_server.HttpsServer.Calls.{
  Deferred, queued, busy, Call, written_by, handle_request, on_data, on_aborted, queue_response,
  destroy, run_deferred, Step, received, connection_aborted, answered, released, looped, Reachable,
  begin, then_,
}

module _ {A : Type 0} where
  -- The replies that were given and those that will be.
  abbrev replies : Call A → ℕ
  replies c = length c.written + length c.deferred

  record Counted (n : ℕ) (c : Call A) : Type 0 where
    most : replies c ≤ n + 1
    fresh : c.replied ≡ false → c.destroyed ≡ false → replies c ≡ n
    idle : c.replied ≡ false → c.destroyed ≡ false → length c.deferred ≡ 0
    exact : c.aborted ≡ false → (c.replied || c.destroyed) ≡ true → replies c ≡ n + 1

  handle_request-Counted :
      (rejection refusal : Option A)
      → Counted (length (written_by rejection)) (handle_request rejection refusal)
  unfolding handle_request
  handle_request-Counted none none = record {
    most = ground arith;
    fresh = λ r d. ground arith;
    idle = λ r d. ground arith;
    exact = λ a r. ground arith;
  }
  handle_request-Counted none (some a) = record {
    most = ground arith;
    fresh = λ r d. ground arith;
    idle = λ r d. ground arith;
    exact = λ a r. ground arith;
  }
  handle_request-Counted (some a) none = record {
    most = ground arith;
    fresh = λ r d. ground arith;
    idle = λ r d. ground arith;
    exact = λ a r. ground arith;
  }
  handle_request-Counted (some a) (some b) = record {
    most = ground arith;
    fresh = λ r d. ground arith;
    idle = λ r d. ground arith;
    exact = λ a r. ground arith;
  }

  queue_response-Counted :
      (n : ℕ) (res : A) (c : Call A)
      → Counted n c
      → c.destroyed ≡ false
      → Counted n (queue_response res c)
  unfolding queue_response
  queue_response-Counted n res c known live = elim (Bool-cases c.replied) [
    | inl t ↦ simp t known
    | inr f ↦
        let more : length (c.deferred ++ (queued res ∷ [])) ≡ length c.deferred + 1 =
          omega (arith, length-append c.deferred (queued res ∷ [])) in
        let was = known.fresh f live in
        simp f (record {
          most = omega (arith, more, was);
          fresh = λ r d. cc;
          idle = λ r d. cc;
          exact = λ a r. omega (arith, more, was);
        })
  ]

  destroy-Counted :
      (n : ℕ) (res : A) (c : Call A) → Counted n c → c.destroyed ≡ false → Counted n (destroy res c)
  unfolding destroy
  destroy-Counted n res c known live = elim (Bool-cases (c.replied || c.aborted)) [
    | inl t ↦ simp t (record {
      most = known.most;
      fresh = λ r d. cc;
      idle = λ r d. cc;
      exact = λ a r. known.exact a (ground arith);
    })
    | inr f ↦
        let more : length (c.deferred ++ (busy res ∷ [])) ≡ length c.deferred + 1 =
          omega (arith, length-append c.deferred (busy res ∷ [])) in
        let was = known.fresh (ground arith) live in
        simp f (record {
          most = omega (arith, more, was);
          fresh = λ r d. cc;
          idle = λ r d. cc;
          exact = λ a r. omega (arith, more, was);
        })
  ]

  write-Counted :
      (n : ℕ) (f : Deferred A) (rest : List (Deferred A)) (res : A) (c : Call A)
      → Counted n c
      → c.deferred ≡ f ∷ rest
      → Counted n (record c { deferred = rest; written = c.written ++ (res ∷ []) })
  write-Counted n f rest res c known next =
      let less : length c.deferred ≡ length rest + 1 = rw next (omega arith) in
      let more : length (c.written ++ (res ∷ [])) ≡ length c.written + 1 =
        omega (arith, length-append c.written (res ∷ [])) in
      record {
        most = omega (arith, less, more, known.most);
        fresh = λ r d. omega (arith, less, more, known.fresh r d);
        idle = λ r d. omega (arith, less, known.idle r d);
        exact = λ a r. omega (arith, less, more, known.exact a r);
      }

  run_deferred-Counted :
      (n : ℕ) (f : Deferred A) (rest : List (Deferred A)) (c : Call A)
      → Counted n c
      → c.deferred ≡ f ∷ rest
      → Counted n (run_deferred f rest c)
  unfolding run_deferred
  run_deferred-Counted n (busy res) rest c known next =
      write-Counted n (busy res) rest res c known next
  run_deferred-Counted n (queued res) rest c known next = elim (Bool-cases c.aborted) [
    | inr f ↦ simp f (simp f at (write-Counted n (queued res) rest res c known next))
    | inl t ↦
        let less : length c.deferred ≡ length rest + 1 = rw next (omega arith) in
        simp t (record {
          most = omega (arith, less, known.most);
          fresh = λ r d. absurd (omega (arith, less, known.idle r d));
          idle = λ r d. absurd (omega (arith, less, known.idle r d));
          exact = λ a r. cc;
        })
  ]

  Step-Counted : (n : ℕ) (c c' : Call A) → Step c c' → Counted n c → Counted n c'
  unfolding on_data on_aborted
  Step-Counted n c c' (received d done b p q) known = record {
    most = known.most;
    fresh = known.fresh;
    idle = known.idle;
    exact = known.exact;
  }
  Step-Counted n c c' (connection_aborted b live) known = record {
    most = known.most;
    fresh = known.fresh;
    idle = known.idle;
    exact = λ a r. cc;
  }
  Step-Counted n c c' (answered res b p live) known = queue_response-Counted n res c known live
  Step-Counted n c c' (released res b live p) known = destroy-Counted n res c known live
  Step-Counted n c c' (looped f rest b next) known = run_deferred-Counted n f rest c known next

  Reachable-Counted :
      (rejection refusal : Option A) (c : Call A)
      → Reachable rejection refusal c
      → Counted (length (written_by rejection)) c
  Reachable-Counted rejection refusal c begin = handle_request-Counted rejection refusal
  Reachable-Counted rejection refusal c (then_ b d r s) =
      Step-Counted _ b c s (Reachable-Counted rejection refusal b r)

  -- However chunks, aborts, replies, the loop and the destructor are ordered, a request is answered at
  -- most once, apart from the answer to a Content-Length that is refused.
  pub Reachable-once :
      (rejection refusal : Option A) (c : Call A)
      → Reachable rejection refusal c
      → length c.written + length c.deferred ≤ length (written_by rejection) + 1
  Reachable-once rejection refusal c r = (Reachable-Counted rejection refusal c r).most

  -- A request that is not aborted is answered: once its data is destroyed, or it has a reply, and the
  -- loop has nothing left to run, exactly one answer was given, apart from the one to a Content-Length
  -- that is refused.
  pub Reachable-answered :
      (rejection refusal : Option A) (c : Call A)
      → Reachable rejection refusal c
      → c.aborted ≡ false
      → (c.replied || c.destroyed) ≡ true
      → c.deferred ≡ []
      → length c.written ≡ length (written_by rejection) + 1
  Reachable-answered rejection refusal c r live done empty =
      let none_left : length c.deferred ≡ 0 = rw empty refl in
      omega (arith, (Reachable-Counted rejection refusal c r).exact live done, none_left)
