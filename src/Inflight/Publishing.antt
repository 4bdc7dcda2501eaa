-- ===== src/Inflight/Publishing.antt =====
-- internal/server/inflight.go: the publisher and the steps after a change.
use fork_llama_swap.Base.{
  ℕ, zero, suc, Bool, true, false, not, ◌&&◌, if_cases, if_keeps, ◌≡◌, refl, sym, ◌∙◌, subst, List,
  [], ◌∷◌, Whenever,
}
use fork_llama_swap.Inflight.{
  Update, Writer, unlocked, overflowed, enqueued, Publisher, idle, selecting, stopping, publishing,
  swapping, discarding, reading, publishing_snapshot, Tracker, says, told_or, current,
  start_publisher, store_needs_snapshot, finish_enqueue, receive, discard, read_current,
  publish_step, recheck, is_empty,
}
use fork_llama_swap.Inflight.Tracks.{latest, told_or-over, Clean, IsQuiet, Agrees, Runs, Tracks}

-- The steps of goroutines that are on their way.
module _ (i : ℕ) (t : Tracker) (tracks : Tracks i t) where
  pub store-Tracks : (w : Writer) → t.writer ≡ w → Whenever (Tracks i) (store_needs_snapshot w t)
  store-Tracks unlocked e = tt
  store-Tracks overflowed e = (tracks.0, λ clean quiet. cc (clean.0))
  store-Tracks enqueued e = tt

  same-Agrees :
      (p q : Publisher) (d b : Bool) (n : ℕ) (w : Writer)
      → Agrees i p t
      → Agrees i p (record t {
        needs_snapshot = d;
        publisher_running = b;
        publisher = q;
        rechecking = n;
        writer = w;
      })
  same-Agrees idle q d b n w h = h
  same-Agrees selecting q d b n w h = h
  same-Agrees stopping q d b n w h = h
  same-Agrees (publishing u) q d b n w h = h
  same-Agrees swapping q d b n w h = h
  same-Agrees discarding q d b n w h = h
  same-Agrees reading q d b n w h = h
  same-Agrees (publishing_snapshot v) q d b n w h = h

  -- Without the flag there is no publisher, and one may begin.
  begin-Agrees :
      (p : Publisher) (b : Bool) → Runs p b → b ≡ false → Agrees i p t → Agrees i selecting t
  begin-Agrees idle b r e h = h
  begin-Agrees selecting b r e h = cc
  begin-Agrees stopping b r e h = cc
  begin-Agrees (publishing u) b r e h = cc
  begin-Agrees swapping b r e h = cc
  begin-Agrees discarding b r e h = cc
  begin-Agrees reading b r e h = cc
  begin-Agrees (publishing_snapshot v) b r e h = cc

  pub finish-Tracks : (w : Writer) → t.writer ≡ w → Whenever (Tracks i) (finish_enqueue w t)
  unfolding start_publisher
  finish-Tracks unlocked e = tt
  finish-Tracks overflowed e = tt
  finish-Tracks enqueued e =
      if_cases (Tracks i) t.publisher_running _ _
        (λ r. (
          tracks.0,
          λ clean quiet.
              same-Agrees t.publisher t.publisher t.needs_snapshot t.publisher_running t.rechecking
                unlocked (tracks.1 (clean.0, λ w. cc) quiet),
        ))
        (λ r. (
          refl,
          λ clean quiet.
              begin-Agrees t.publisher t.publisher_running tracks.0 r
                (tracks.1 (clean.0, λ w. cc) quiet),
        ))

  pub at_publisher :
      (p : Publisher)
      → t.publisher ≡ p
      → Runs p t.publisher_running × (Clean t → IsQuiet (t.requests i) → Agrees i p t)
  at_publisher p e =
      subst (λ q. Runs q t.publisher_running × (Clean t → IsQuiet (t.requests i) → Agrees i q t)) e
        tracks

  receive-Tracks :
      (us : List Update) → t.updates ≡ us → t.publisher ≡ selecting → Tracks i (receive us t)
  unfolding latest
  receive-Tracks [] e p = at_publisher selecting p
  receive-Tracks (u ∷ us) e p = (
    (at_publisher selecting p).0,
    λ clean quiet.
        sym (told_or-over (latest i us) (says i u) (t.view i))
        ∙ subst (λ l. told_or (latest i l) (t.view i) ≡ current t i) e
            ((at_publisher selecting p).1 clean quiet),
  )

  discard-Tracks :
      (us : List Update) → t.updates ≡ us → t.publisher ≡ discarding → Tracks i (discard us t)
  unfolding latest
  discard-Tracks [] e p = ((at_publisher discarding p).0, λ clean quiet. rw e refl)
  discard-Tracks (u ∷ us) e p =
      (tracks.0, λ clean quiet. subst (λ q. Agrees i q (record t { updates = us })) (sym p) tt)

  read-Tracks :
      (w : Writer) → t.writer ≡ w → t.publisher ≡ reading → Whenever (Tracks i) (read_current w t)
  read-Tracks unlocked e p =
      ((at_publisher reading p).0, λ clean quiet. (at_publisher reading p).1 clean quiet)
  read-Tracks overflowed e p = tt
  read-Tracks enqueued e p = tt

  pub publish-Tracks : (p : Publisher) → t.publisher ≡ p → Whenever (Tracks i) (publish_step p t)
  publish-Tracks idle e = tt
  publish-Tracks selecting e = receive-Tracks t.updates refl e
  publish-Tracks stopping e = (refl, λ clean quiet. (at_publisher stopping e).1 clean quiet)
  publish-Tracks (publishing u) e = at_publisher (publishing u) e
  publish-Tracks swapping e =
      if_keeps (Tracks i) t.needs_snapshot _ _ ((at_publisher swapping e).0, λ clean quiet. tt)
        (at_publisher swapping e)
  publish-Tracks discarding e = discard-Tracks t.updates refl e
  publish-Tracks reading e = read-Tracks t.writer refl e
  publish-Tracks (publishing_snapshot v) e = at_publisher (publishing_snapshot v) e

  pub recheck-Tracks : (n : ℕ) → Whenever (Tracks i) (recheck n t)
  recheck-Tracks zero = tt
  recheck-Tracks (suc n) =
      if_cases (Tracks i) (not (is_empty t.updates) && not t.publisher_running) _ _
        (λ r. (
          refl,
          λ clean quiet.
              begin-Agrees t.publisher t.publisher_running tracks.0
                (stopped (not (is_empty t.updates)) t.publisher_running r) (tracks.1 clean quiet),
        ))
        (λ r. (
          tracks.0,
          λ clean quiet.
              same-Agrees t.publisher t.publisher t.needs_snapshot t.publisher_running n t.writer
                (tracks.1 clean quiet),
        ))
    where
      stopped : (a b : Bool) → (a && not b) ≡ true → b ≡ false
      stopped true true h = cc
      stopped true false h = refl
      stopped false b h = cc
