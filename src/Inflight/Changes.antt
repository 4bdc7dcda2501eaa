-- ===== src/Inflight/Changes.antt =====
-- internal/server/inflight.go: the changes of requests under the lock, and the timer.
use fork_llama_swap.Base.{
  ℕ, ◌+◌, ◌^◌, ◌%◌, ◌==◌, String, Bool, true, false, not, ◌&&◌, ltb, leb, if◌then◌else◌, if_cases,
  if_keeps, ◌≡◌, ◌⊎◌, inl, inr, refl, ap, subst, List, [], length, Option, none, some,
}
use fork_llama_swap.Inflight.{
  Entry, InflightRequest, Update, upsert, remove, unlocked, enqueued, Publisher, idle, selecting,
  stopping, publishing, swapping, discarding, reading, publishing_snapshot, Tracker, put, says,
  entry_of, enqueue, add, remove_found, remove_request, emit, set_headers_found,
  set_response_headers, add_bytes_found, add_response_bytes, emit_found, emit_pending,
  inflight_update_interval,
}
use fork_llama_swap.Inflight.Tracks.{Clean, IsQuiet, Agrees, Tracks, Changes, queued-Agrees}

abbrev removed : Bool → Option (Option Entry)
removed b = if b then some none else none

module _ (size i : ℕ) (t : Tracker) (free : t.writer ≡ unlocked) (tracks : Tracks i t) where
  -- enqueueLocked after such a change.
  enqueue-Tracks :
      (u : Update) (requests : ℕ → Option InflightRequest) (n : ℕ)
      → Changes i u requests t
      → Tracks i (enqueue size u (record t { next_id = n; requests = requests }))
  unfolding enqueue
  enqueue-Tracks u requests n c =
      if_cases (Tracks i) (ltb (length t.updates) size) _ _
        (λ q. (
          tracks.0,
          λ clean quiet.
              queued-Agrees i u requests n enqueued t t.publisher c
                (λ s. tracks.1 (clean.0, λ w. cc) (quiet_before c s quiet)),
        ))
        (λ q. (tracks.0, λ clean quiet. absurd (clean.1 refl)))
    where
      quiet_before :
          Changes i u requests t → says i u ≡ none → IsQuiet (requests i) → IsQuiet (t.requests i)
      quiet_before (inl e) s k = cc
      quiet_before (inr e) s k = subst IsQuiet e.1 k

  upsert-Changes :
      (id : ℕ) (r : InflightRequest) → Changes i (upsert id r.entry) (put t.requests id (some r)) t
  upsert-Changes id r = by_test (id == i)
    where
      by_test :
          (b : Bool)
          → ((if b then some (some r.entry) else none)
              ≡ some (entry_of (if b then some r else t.requests i)))
            ⊎ (((if b then some (some r.entry) else none) ≡ none)
                × ((if b then some r else t.requests i) ≡ t.requests i))
      by_test true = inl refl
      by_test false = inr (refl, refl)

  remove-Changes : (id : ℕ) → Changes i (remove id) (put t.requests id none) t
  remove-Changes id = by_test (id == i)
    where
      by_test :
          (b : Bool)
          → (removed b ≡ some (entry_of (if b then none else t.requests i)))
            ⊎ ((removed b ≡ none) × ((if b then none else t.requests i) ≡ t.requests i))
      by_test true = inl refl
      by_test false = inr (refl, refl)

  emit-Tracks : (id : ℕ) (r : InflightRequest) → Tracks i (emit size id r t)
  emit-Tracks id r =
      enqueue-Tracks (upsert id r.entry) (put t.requests id (some r)) t.next_id
        (upsert-Changes id r)

  pub add-Tracks : (about : String) (now : ℕ) → Tracks i (add size about now t)
  unfolding add
  add-Tracks about now =
      enqueue-Tracks (upsert id r.entry) (put t.requests id (some r)) id (upsert-Changes id r)
    where
      id : ℕ
      id = (t.next_id + 1) % 2 ^ 64

      r : InflightRequest
      r = record {
        entry = record { about = about; resp_headers = []; resp_bytes = 0 };
        last_emitted = now;
        has_timer = false;
      }

  pub remove_request-Tracks : (id : ℕ) → Tracks i (remove_request size id t)
  unfolding remove_request
  remove_request-Tracks id = found (t.requests id)
    where
      found : (o : Option InflightRequest) → Tracks i (remove_found size id o t)
      found none = tracks
      found (some r) =
          enqueue-Tracks (remove id) (put t.requests id none) t.next_id (remove-Changes id)

  pub set_response_headers-Tracks :
      (id : ℕ) (values : List String) (now : ℕ)
      → Tracks i (set_response_headers size id values now t)
  unfolding set_response_headers
  set_response_headers-Tracks id values now = found (t.requests id)
    where
      found : (o : Option InflightRequest) → Tracks i (set_headers_found size id values now o t)
      found none = tracks
      found (some r) =
          emit-Tracks id
            (record r { entry = record r.entry { resp_headers = values }; last_emitted = now })

  pub emit_pending-Tracks : (id now : ℕ) → Tracks i (emit_pending size id now t)
  unfolding emit_pending
  emit_pending-Tracks id now = found (t.requests id)
    where
      found : (o : Option InflightRequest) → Tracks i (emit_found size id now o t)
      found none = tracks
      found (some r) = emit-Tracks id (record r { has_timer = false; last_emitted = now })

  -- A change that is left to the timer.
  timed-Agrees :
      (requests : ℕ → Option InflightRequest) (p : Publisher)
      → requests i ≡ t.requests i
      → Agrees i p t
      → Agrees i p (record t { requests = requests })
  timed-Agrees requests idle e h = rw e h
  timed-Agrees requests selecting e h = rw e h
  timed-Agrees requests stopping e h = rw e h
  timed-Agrees requests (publishing u) e h = rw e h
  timed-Agrees requests swapping e h = rw e h
  timed-Agrees requests discarding e h = tt
  timed-Agrees requests reading e h = rw e h
  timed-Agrees requests (publishing_snapshot v) e h = rw e h

  timed-Tracks :
      (id : ℕ) (r : InflightRequest)
      → r.has_timer ≡ true
      → Tracks i (record t { requests = put t.requests id (some r) })
  timed-Tracks id r e = (tracks.0, λ clean. by_test clean (id == i) refl)
    where
      by_test :
          Clean t
          → (b : Bool) → (id == i) ≡ b
          → IsQuiet (put t.requests id (some r) i)
          → Agrees i t.publisher (record t { requests = put t.requests id (some r) })
      by_test clean true q k = cc (subst (λ b. IsQuiet (if b then some r else t.requests i)) q k, e)
      by_test clean false q k =
          timed-Agrees (put t.requests id (some r)) t.publisher
            (ap (λ b. if b then some r else t.requests i) q)
            (tracks.1 clean (subst (λ b. IsQuiet (if b then some r else t.requests i)) q k))

  pub add_response_bytes-Tracks :
      (id total now : ℕ) → Tracks i (add_response_bytes size id total now t)
  unfolding add_response_bytes
  add_response_bytes-Tracks id total now =
      if_keeps (Tracks i) (leb total 0) _ _ tracks (found (t.requests id))
    where
      found : (o : Option InflightRequest) → Tracks i (add_bytes_found size id total now o t)
      found none = tracks
      found (some r) =
          if_keeps (Tracks i)
            (leb (r.last_emitted + inflight_update_interval) now && not r.has_timer) _ _
            (emit-Tracks id (record r {
              entry = record r.entry { resp_bytes = r.entry.resp_bytes + total };
              last_emitted = now;
            }))
            (timed-Tracks id
              (record r {
                entry = record r.entry { resp_bytes = r.entry.resp_bytes + total };
                has_timer = true;
              })
              refl)
