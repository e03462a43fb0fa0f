-- ===== src/Outbox/Finals.antt =====
-- What stays in the queue, and the waits between attempts (services/central-api/app/core/outbox.py).
use mini_ogas.Prelude.{
  ℕ, zero, suc, ◌-◌, ◌≤◌, ◌≡◌, refl, sym, subst, max, min, Bool, true, false, some, List, [], ◌∷◌,
  ◌++◌, String, arith, find, change_all, Bool-cases, inl, inr,
}
use mini_ogas.Outbox.{
  Message, Envelope, is_published, has_id, is_stale, reset, is_pending_id, claimed, claim_rows,
  candidates, claim_pending, enqueue, message_of, is_unpublished_id, mark_published, power_of_two,
  retry_seconds, mark_failed, mark_dead_letter,
}

-- The calls of the queue.
pub data Call : Type 0 where
  -- The time is that of the second reading of the clock.
  addition : Envelope → ℕ → Call
  claim : ℕ → ℕ → String → Call
  publication : String → Call
  failure : String → String → ℕ → Call
  dead_letter : String → String → Call

module _ (text_before : String → String → Bool) where
  abbrev pub handle : Call → ℕ → List Message → List Message
  handle (Call.addition e created) now ms = (enqueue e now created ms).1
  handle (Call.claim limit lease token) now ms =
      (claim_pending text_before now limit lease token ms).1
  handle (Call.publication id) now ms = (mark_published id now ms).1
  handle (Call.failure id error attempts) now ms = (mark_failed id error attempts now ms).1
  handle (Call.dead_letter id error) now ms = (mark_dead_letter id error ms).1

-- A change that leaves published messages and keeps identifiers does not reach one that is found.
find-change_all :
    (id : String) (test : Message → Bool) (change : Message → Message) (m : Message)
    (ms : List Message)
    → ((n : Message) → (change n).message_id ≡ n.message_id)
    → test m ≡ false
    → find (has_id id) ms ≡ some m
    → find (has_id id) (change_all test change ms) ≡ some m
find-change_all id test change m [] keeps away h = absurd (ground arith)
find-change_all id test change m (n ∷ ns) keeps away h = elim (Bool-cases (has_id id n)) [
  | inl here ↦
      let same : n ≡ m = ground (arith, h, here) in
      let off : test n ≡ false = subst (λ x. test x ≡ false) (sym same) away in
      ground (arith, off, here, h)
  | inr there ↦
      let found : find (has_id id) ns ≡ some m = ground (arith, h, there) in
      ground (arith, there, keeps n, find-change_all id test change m ns keeps away found)
]

claim_rows-found :
    (id : String) (now : ℕ) (token : String) (rows : List Message) (m : Message) (ms : List Message)
    → is_published m.status ≡ true
    → find (has_id id) ms ≡ some m
    → find (has_id id) (claim_rows now token rows ms).1 ≡ some m
unfolding claim_rows
claim_rows-found id now token [] m ms done h = h
claim_rows-found id now token (r ∷ rows) m ms done h =
    let after = change_all (is_pending_id r.message_id) (claimed now token) ms in
    let off : is_pending_id r.message_id m ≡ false = ground (arith, done) in
    let kept =
      find-change_all id (is_pending_id r.message_id) (claimed now token) m ms (λ n. refl) off h in
    ground (
      arith,
      claim_rows-found id now token rows m after done kept,
      claim_rows-found id now token rows m ms done h,
    )

find-append_some :
    (id : String) (m n : Message) (ms : List Message)
    → find (has_id id) ms ≡ some m
    → find (has_id id) (ms ++ n ∷ []) ≡ some m
find-append_some id m n [] h = absurd (ground arith)
find-append_some id m n (x ∷ ms) h = ground (arith, find-append_some id m n ms)

handle-found :
    (text_before : String → String → Bool) (call : Call) (now : ℕ) (id : String) (m : Message)
    (ms : List Message)
    → is_published m.status ≡ true
    → find (has_id id) ms ≡ some m
    → find (has_id id) (handle text_before call now ms) ≡ some m
unfolding enqueue claim_pending mark_published mark_failed mark_dead_letter
handle-found text_before (Call.addition e created) now id m ms done h =
    ground (arith, h, find-append_some id m (message_of e now created) ms)
handle-found text_before (Call.claim limit lease token) now id m ms done h =
    let stale = is_stale (now - max 1 lease) in
    let off : stale m ≡ false = ground (arith, done) in
    let released = change_all stale reset ms in
    claim_rows-found id now token (candidates text_before now limit released) m released done
      (find-change_all id stale reset m ms (λ n. refl) off h)
handle-found text_before (Call.publication other) now id m ms done h =
    find-change_all id (is_unpublished_id other) _ m ms (λ n. refl) (ground (arith, done)) h
handle-found text_before (Call.failure other error attempts) now id m ms done h =
    find-change_all id (is_unpublished_id other) _ m ms (λ n. refl) (ground (arith, done)) h
handle-found text_before (Call.dead_letter other error) now id m ms done h =
    find-change_all id (is_unpublished_id other) _ m ms (λ n. refl) (ground (arith, done)) h

module _ (text_before : String → String → Bool) where
  -- Calls one after another, each at its time.
  unfoldable pub run : List (Call × ℕ) → List Message → List Message
  run [] ms = ms
  run ((call, now) ∷ calls) ms = run calls (handle text_before call now ms)

  -- A message that is published stays as it is, over any calls of the queue.
  pub run-published :
      (calls : List (Call × ℕ)) (id : String) (m : Message) (ms : List Message)
      → find (has_id id) ms ≡ some m
      → is_published m.status ≡ true
      → find (has_id id) (run calls ms) ≡ some m
  unfolding run
  run-published [] id m ms h done = h
  run-published ((call, now) ∷ calls) id m ms h done =
      run-published calls id m (handle text_before call now ms)
        (handle-found text_before call now id m ms done h) done

power_of_two-one : (n : ℕ) → 1 ≤ power_of_two n
power_of_two-one zero = omega arith
power_of_two-one (suc n) = omega (arith, power_of_two-one n)

power_of_two-two : (n : ℕ) → 1 ≤ n → 2 ≤ power_of_two n
power_of_two-two zero h = absurd (omega (arith, h))
power_of_two-two (suc n) h = omega (arith, power_of_two-one n)

power_of_two-le : (a b : ℕ) → a ≤ b → power_of_two a ≤ power_of_two b
power_of_two-le zero b h = power_of_two-one b
power_of_two-le (suc a) zero h = absurd (omega (arith, h))
power_of_two-le (suc a) (suc b) h = omega (arith, power_of_two-le a b (omega (arith, h)))

-- The wait before the next attempt is between two seconds and a minute, and does not shrink with the
-- number of attempts.
pub retry_seconds-bounds :
    (a b : ℕ)
    → a ≤ b
    → (2 ≤ retry_seconds a) × (retry_seconds a ≤ 60) × (retry_seconds a ≤ retry_seconds b)
unfolding retry_seconds
retry_seconds-bounds a b h =
    let x = min (max a 1) 6 in
    let y = min (max b 1) 6 in
    let le : x ≤ y = omega (arith, h) in
    let two : 2 ≤ power_of_two x = power_of_two-two x (omega arith) in
    let grows : power_of_two x ≤ power_of_two y = power_of_two-le x y le in
    (omega (arith, two), omega arith, omega (arith, grows))
