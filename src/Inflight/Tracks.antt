-- ===== src/Inflight/Tracks.antt =====
-- internal/server/inflight.go: what a client will see of a request once it has all that is to come.
use fork_llama_swap.Base.{
  ℕ, Bool, true, false, ◌≡◌, ◌≢◌, ◌⊎◌, inl, inr, refl, sym, ap, ◌∙◌, List, [], ◌∷◌, ◌++◌, Option,
  none, some,
}
use fork_llama_swap.Inflight.{
  Entry, InflightRequest, Update, Writer, overflowed, Publisher, idle, selecting, stopping,
  publishing, swapping, discarding, reading, publishing_snapshot, Tracker, says, told_or, apply,
  entry_of, current,
}

-- What the updates say of a request in the end, if they say anything.
abbrev over : Option (Option Entry) → Option (Option Entry) → Option (Option Entry)
over none l = l
over (some e) l = some e

unfoldable pub latest : ℕ → List Update → Option (Option Entry)
latest i [] = none
latest i (u ∷ us) = over (latest i us) (says i u)

over-none : (l : Option (Option Entry)) → over l none ≡ l
over-none none = refl
over-none (some e) = refl

over_assoc : (a b c : Option (Option Entry)) → over a (over b c) ≡ over (over a b) c
over_assoc none b c = refl
over_assoc (some e) b c = refl

latest_snoc :
    (i : ℕ) (us : List Update) (u : Update)
    → latest i (us ++ u ∷ []) ≡ over (says i u) (latest i us)
unfolding latest
latest_snoc i [] u = sym (over-none (says i u))
latest_snoc i (v ∷ us) u =
    ap (λ l. over l (says i v)) (latest_snoc i us u)
    ∙ sym (over_assoc (says i u) (latest i us) (says i v))

-- To apply an update, and then the rest, is to apply all.
pub told_or-over :
    (a b : Option (Option Entry)) (o : Option Entry)
    → told_or (over a b) o ≡ told_or a (told_or b o)
told_or-over none b o = refl
told_or-over (some e) b o = refl

-- No update has been dropped that a snapshot does not make up for.
abbrev pub Clean : Tracker → Type 0
Clean t = (t.needs_snapshot ≡ false) × (t.writer ≢ overflowed)

-- No timer is set for the request, if it is there.
abbrev pub IsQuiet : Option InflightRequest → Type 0
IsQuiet none = Unit
IsQuiet (some r) = r.has_timer ≡ false

-- What the client will see of the request in the end is what the tracker has.
abbrev pub Agrees : ℕ → Publisher → Tracker → Type 0
Agrees i discarding t = Unit
Agrees i reading t = told_or (latest i t.updates) (current t i) ≡ current t i
Agrees i (publishing u) t = told_or (latest i t.updates) (apply u t.view i) ≡ current t i
Agrees i (publishing_snapshot v) t = told_or (latest i t.updates) (v i) ≡ current t i
Agrees i _ t = told_or (latest i t.updates) (t.view i) ≡ current t i

-- The flag tells whether there is a publisher.
abbrev pub Runs : Publisher → Bool → Type 0
Runs idle running = running ≡ false
Runs _ running = running ≡ true

abbrev pub Tracks : ℕ → Tracker → Type 0
Tracks i t =
    Runs t.publisher t.publisher_running
    × (Clean t → IsQuiet (t.requests i) → Agrees i t.publisher t)

-- A change of a request whose update enters the outbox.
abbrev pub Changes : ℕ → Update → (ℕ → Option InflightRequest) → Tracker → Type 0
Changes i u requests t =
    (says i u ≡ some (entry_of (requests i))) ⊎ ((says i u ≡ none) × (requests i ≡ t.requests i))

pub queued-Agrees :
    (i : ℕ) (u : Update) (requests : ℕ → Option InflightRequest) (n : ℕ) (w : Writer) (t : Tracker)
    (p : Publisher)
    → Changes i u requests t
    → (says i u ≡ none → Agrees i p t)
    → Agrees i p
        (record t { next_id = n; requests = requests; updates = t.updates ++ u ∷ []; writer = w })
queued-Agrees i u requests n w t discarding c h = tt
queued-Agrees i u requests n w t reading (inl e) h = rw (latest_snoc i t.updates u, e) refl
queued-Agrees i u requests n w t reading (inr e) h =
    rw (latest_snoc i t.updates u, e.0, e.1) (h e.0)
queued-Agrees i u requests n w t (publishing v) (inl e) h = rw (latest_snoc i t.updates u, e) refl
queued-Agrees i u requests n w t (publishing v) (inr e) h =
    rw (latest_snoc i t.updates u, e.0, e.1) (h e.0)
queued-Agrees i u requests n w t (publishing_snapshot v) (inl e) h =
    rw (latest_snoc i t.updates u, e) refl
queued-Agrees i u requests n w t (publishing_snapshot v) (inr e) h =
    rw (latest_snoc i t.updates u, e.0, e.1) (h e.0)
queued-Agrees i u requests n w t idle (inl e) h = rw (latest_snoc i t.updates u, e) refl
queued-Agrees i u requests n w t idle (inr e) h = rw (latest_snoc i t.updates u, e.0, e.1) (h e.0)
queued-Agrees i u requests n w t selecting (inl e) h = rw (latest_snoc i t.updates u, e) refl
queued-Agrees i u requests n w t stopping (inl e) h = rw (latest_snoc i t.updates u, e) refl
queued-Agrees i u requests n w t selecting (inr e) h =
    rw (latest_snoc i t.updates u, e.0, e.1) (h e.0)
queued-Agrees i u requests n w t stopping (inr e) h =
    rw (latest_snoc i t.updates u, e.0, e.1) (h e.0)
queued-Agrees i u requests n w t swapping (inl e) h = rw (latest_snoc i t.updates u, e) refl
queued-Agrees i u requests n w t swapping (inr e) h =
    rw (latest_snoc i t.updates u, e.0, e.1) (h e.0)
