-- ===== src/Stuck/Repeats.antt =====
-- The count of repeated captures against the samples that a worker has sent.
use tab_conductor.Prelude.{
  ℕ, ◌+◌, String, ◌≡◌, refl, true, Option, none, some, List, [], ◌∷◌, ◌==◌, eq_iff, arith,
  if◌then◌else◌, Bool-cases, Option-cases, inl, inr, subst, ap, ◌∙◌,
}
use tab_conductor.Prelude.Call.{Call, returns, ◌>>=◌, >>=-returns}
use tab_conductor.Dict.{lookup, lookup-insert}
use tab_conductor.Stuck.{
  StuckDetector, WorkerRecord, MissingWorker, new, put, register, update_heartbeat, observe,
  update_capture,
}

pub data Event : Type 0 where
  registers : String → ℕ → ℕ → Event
  beats : String → ℕ → Event
  captures : String → String → Event

module _ (sha256 : String → String) where
  unfoldable pub happen : Event → StuckDetector → Call MissingWorker StuckDetector
  happen (registers w pid now) d = returns (register w pid now d)
  happen (beats w ts) d = update_heartbeat w ts d
  happen (captures w text) d = update_capture sha256 w text d

  unfoldable pub happen_all : List Event → StuckDetector → Call MissingWorker StuckDetector
  happen_all [] d = returns d
  happen_all (e ∷ es) d = happen e d >>= happen_all es

  -- the digests of the worker's samples since its last registration, the latest first
  unfoldable pub samples : String → List Event → List String → List String
  samples w [] ss = ss
  samples w (registers v pid now ∷ es) ss = samples w es (if v == w then [] else ss)
  samples w (beats v ts ∷ es) ss = samples w es ss
  samples w (captures v text ∷ es) ss = samples w es (if v == w then sha256 text ∷ ss else ss)

-- how often the first item stands at the front
unfoldable pub run_length : List String → ℕ
run_length [] = 0
run_length (s ∷ []) = 1
run_length (s ∷ t ∷ ss) = let rest = run_length (t ∷ ss) in if t == s then rest + 1 else 1

abbrev pub latest : List String → Option String
latest [] = none
latest (s ∷ ss) = some s

-- The worker's record counts its last samples.
pub record Tracks (ss : List String) (rec : WorkerRecord) : Type 0 where
  pub hash : rec.last_capture_hash ≡ latest ss
  pub count : rec.capture_repeat_count ≡ run_length ss

observe-Tracks :
    (digest : String) (ss : List String) (rec : WorkerRecord)
    → Tracks ss rec
    → Tracks (digest ∷ ss) (observe digest rec)
unfolding run_length
observe-Tracks digest [] rec t = record {
  hash = ground (arith, t.hash, t.count);
  count = ground (arith, t.hash, t.count);
}
observe-Tracks digest (s ∷ ss) rec t = record {
  hash = ground (arith, t.hash, t.count, eq_iff s digest);
  count = ground (arith, t.hash, t.count, eq_iff s digest);
}

-- The record of `w`, if it has one, counts the samples `ss`.
abbrev pub Follows : String → List String → StuckDetector → Type 0
Follows w ss d = (rec : WorkerRecord) → lookup w d.workers ≡ some rec → Tracks ss rec

module _ (w v : String) (rec : WorkerRecord) (d : StuckDetector) where
  put-Follows :
      (ss ss' : List String)
      → ((v == w) ≡ true → Tracks ss' rec)
      → Follows w ss d
      → Follows w (if v == w then ss' else ss) (put v rec d)
  put-Follows ss ss' t f r e = elim (Bool-cases (v == w)) [
    | inl same ↦
        rw same
          (subst (Tracks ss') (ground (arith, same, e, lookup-insert v w rec d.workers)) (t same))
    | inr other ↦ rw other (f r (ground (arith, other, e, lookup-insert v w rec d.workers)))
  ]

module _ (sha256 : String → String) (w : String) where
  register-Follows :
      (v : String) (pid now : ℕ) (ss : List String) (d : StuckDetector)
      → Follows w ss d
      → Follows w (if v == w then [] else ss) (register v pid now d)
  unfolding register run_length
  register-Follows v pid now ss d =
      put-Follows w v _ d ss [] (λ same. record { hash = refl; count = refl })

  -- the record that the worker `w` has, if it is `v`
  own :
      (v : String) (ss : List String) (d : StuckDetector) (rec : WorkerRecord)
      → lookup v d.workers ≡ some rec
      → Follows w ss d
      → (v == w) ≡ true
      → Tracks ss rec
  own v ss d rec known f same =
      f rec (ground (arith, known, ap (λ k. lookup k d.workers) ((eq_iff v w).0 same)))

  update_heartbeat-Follows :
      (v : String) (ts : ℕ) (ss : List String) (d d' : StuckDetector)
      → update_heartbeat v ts d ≡ returns d'
      → Follows w ss d
      → Follows w ss d'
  unfolding update_heartbeat
  update_heartbeat-Follows v ts ss d d' h f = elim (Option-cases (lookup v d.workers)) [
    | inl missing ↦ cc (missing, h)
    | inr (rec, known) ↦
        let rec' = record rec { last_heartbeat = ts } in
        subst (Follows w ss) {x = put v rec' d} {y = d'} (cc (known, h)) (
          subst (λ s. Follows w s (put v rec' d)) {x = if v == w then ss else ss} {y = ss}
            (ground arith)
            (put-Follows w v rec' d ss ss
              (λ same.
                let t = own v ss d rec known f same in record { hash = t.hash; count = t.count })
              f))
  ]

  update_capture-Follows :
      (v text : String) (ss : List String) (d d' : StuckDetector)
      → update_capture sha256 v text d ≡ returns d'
      → Follows w ss d
      → Follows w (if v == w then sha256 text ∷ ss else ss) d'
  unfolding update_capture
  update_capture-Follows v text ss d d' h f = elim (Option-cases (lookup v d.workers)) [
    | inl missing ↦ cc (missing, h)
    | inr (rec, known) ↦
        let rec' = observe (sha256 text) rec in
        subst (Follows w (if v == w then sha256 text ∷ ss else ss)) {x = put v rec' d} {y = d'}
          (cc (known, h))
          (put-Follows w v rec' d ss (sha256 text ∷ ss)
            (λ same. observe-Tracks (sha256 text) ss rec (own v ss d rec known f same)) f)
  ]

  happen_all-Follows :
      (es : List Event) (ss : List String) (d d' : StuckDetector)
      → happen_all sha256 es d ≡ returns d'
      → Follows w ss d
      → Follows w (samples sha256 w es ss) d'
  unfolding happen_all samples happen
  happen_all-Follows [] ss d d' h f = subst (Follows w ss) {x = d} {y = d'} (cc h) f
  happen_all-Follows (registers v pid now ∷ es) ss d d' h f =
      happen_all-Follows es _ (register v pid now d) d' h (register-Follows v pid now ss d f)
  happen_all-Follows (beats v ts ∷ es) ss d d' h f =
      let (d1, h1, h2) = >>=-returns (update_heartbeat v ts d) (happen_all sha256 es) h in
      happen_all-Follows es _ d1 d' h2 (update_heartbeat-Follows v ts ss d d1 h1 f)
  happen_all-Follows (captures v text ∷ es) ss d d' h f =
      let (d1, h1, h2) = >>=-returns (update_capture sha256 v text d) (happen_all sha256 es) h in
      happen_all-Follows es _ d1 d' h2 (update_capture-Follows v text ss d d1 h1 f)

-- If a new detector has taken any registrations, heartbeats and captures without a missing worker, then
-- the count of a worker is the number of its last samples with equal digests, since it was registered
-- last, and the last digest is that of its last sample.
pub happen_all-Tracks :
    (sha256 : String → String) (heartbeat repeats idle : ℕ) (es : List Event) (d : StuckDetector)
    (w : String) (rec : WorkerRecord)
    → happen_all sha256 es (new heartbeat repeats idle) ≡ returns d
    → lookup w d.workers ≡ some rec
    → Tracks (samples sha256 w es []) rec
unfolding lookup
happen_all-Tracks sha256 heartbeat repeats idle es d w rec h =
    happen_all-Follows sha256 w es [] (new heartbeat repeats idle) d h (λ r e. cc e) rec

module _ (sha256 : String → String) where
  happen-threshold :
      (e : Event) (d d' : StuckDetector)
      → happen sha256 e d ≡ returns d'
      → d'.capture_repeat_threshold ≡ d.capture_repeat_threshold
  unfolding happen register update_heartbeat update_capture
  happen-threshold (registers v pid now) d d' h = ground (arith, h)
  happen-threshold (beats v ts) d d' h = elim (Option-cases (lookup v d.workers)) [
    | inl missing ↦ cc (missing, h)
    | inr (rec, known) ↦ ground (arith, known, h)
  ]
  happen-threshold (captures v text) d d' h = elim (Option-cases (lookup v d.workers)) [
    | inl missing ↦ cc (missing, h)
    | inr (rec, known) ↦ ground (arith, known, h)
  ]

  pub happen_all-threshold :
      (es : List Event) (d d' : StuckDetector)
      → happen_all sha256 es d ≡ returns d'
      → d'.capture_repeat_threshold ≡ d.capture_repeat_threshold
  unfolding happen_all
  happen_all-threshold [] d d' h = ground (arith, h)
  happen_all-threshold (e ∷ es) d d' h =
      let (d1, h1, h2) = >>=-returns (happen sha256 e d) (happen_all sha256 es) h in
      happen_all-threshold es d1 d' h2 ∙ happen-threshold e d d1 h1
