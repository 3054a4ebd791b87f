-- ===== src/Store/Terms.antt =====
-- The terms that acquisitions of the service lease grant: one holder at a time, fences that grow.
use oc_review_bot.Common.{
  ℕ, ◌+◌, ◌≤◌, ◌<◌, ◌≡◌, refl, ◌∙◌, inl, inr, Bool, true, false, ◌&&◌, Option, none, some, List, [],
  ◌∷◌, Bytes, All, text_eq, arith, leb, ltb, ◌==◌, Bool-cases, if◌then◌else◌,
}
use oc_review_bot.Store.Schema.{
  Db, ServiceLease, fence_of, invalid_service_lease_owner, invalid_service_lease_ttl,
}
use oc_review_bot.Store.Tx.{ok, err, ◌>>=◌, require, transact, gets, modify, commit}
use oc_review_bot.Store.Lease.{
  is_valid_owner, validate_service_lease_owner, validate_service_lease, is_free, is_held,
  taken_fence, acquire_service_lease_with_fence, renew_service_lease, release_service_lease,
  validate_service_lease_term,
}
use oc_review_bot.Store.Admission.{purge_deliveries_before}
use oc_review_bot.Store.Frame.{Frame, LeaseFrame}
use oc_review_bot.Store.Frame.Intake
use oc_review_bot.Store.Frame.Nudges
use oc_review_bot.Store.History.{
  Call, step, run, acquire_lease, renew_lease, release_lease, admit_review, admit_nudge,
  purge_deliveries, work,
}
use oc_review_bot.Store.History.Induction.{perform-keeps, run-keeps}

abbrev granted : Bytes → ℕ → ℕ → Option ServiceLease → ServiceLease
granted owner ttl now lease = record {
  owner_token = owner;
  fence = taken_fence lease;
  expires_at = now + ttl;
}

-- The three ways an acquisition ends.
acquire_lem :
    (owner : Bytes) (ttl now : ℕ) (db : Db)
    → acquire_service_lease_with_fence owner ttl now db ≡ (
        if is_valid_owner owner
        then (if ltb 0 ttl
            then (if is_free now db.lease
                then (
                  ok (some (granted owner ttl now db.lease)),
                  record db { lease = some (granted owner ttl now db.lease) },
                )
                else (ok none, db))
            else (err invalid_service_lease_ttl, db))
        else (err invalid_service_lease_owner, db))
unfolding acquire_service_lease_with_fence validate_service_lease validate_service_lease_owner
    transact ◌>>=◌ require gets modify commit
acquire_lem owner ttl now db = elim (Bool-cases (is_valid_owner owner)) [
  | inl v ↦ rw v (elim (Bool-cases (ltb 0 ttl)) [
    | inl t ↦ rw t (elim (Bool-cases (is_free now db.lease)) [ inl f ↦ rw f | inr f ↦ rw f ])
    | inr t ↦ rw t
  ])
  | inr v ↦ rw v
]

-- A granted lease is the row, with a fence above the last one.
acquire-some :
    (owner : Bytes) (ttl now : ℕ) (db : Db) (l : ServiceLease)
    → (acquire_service_lease_with_fence owner ttl now db).0 ≡ ok (some l)
    → ((acquire_service_lease_with_fence owner ttl now db).1.lease ≡ some l)
      × (fence_of db.lease < l.fence)
acquire-some owner ttl now db l = rw (acquire_lem owner ttl now db) (λ h. ground arith)

module _ (n : ℕ) where
  abbrev AtLeast : Db → Type 0
  AtLeast db = n ≤ fence_of db.lease

  fence_frame : Frame AtLeast
  fence_frame = record {
    reviews = λ test f db w h. h;
    completion = λ test f db w h. h;
    publications = λ test f db w h. h;
    nudges = λ test f db w h. h;
    findings = λ fs db h. h;
    deliveries = λ ds db e h. h;
    new_review = λ r db i q c h. h;
    new_publication = λ p db i q c h. h;
    new_nudge = λ m db i q h. h;
  }

  fence_leases : LeaseFrame AtLeast
  fence_leases = record { lease = λ l db le h. omega arith }

-- The fence of a granted lease is above that of every lease granted before it, whatever calls were
-- made between the two grants.
pub grants_increase :
    (first second : Bytes) (ttl ttl' now later : ℕ) (cs : List (ℕ × Call)) (db : Db)
    (l l' : ServiceLease)
    → (acquire_service_lease_with_fence first ttl now db).0 ≡ ok (some l)
    → (acquire_service_lease_with_fence second ttl' later
        (run cs (acquire_service_lease_with_fence first ttl now db).1)).0
      ≡ ok (some l')
    → l.fence < l'.fence
grants_increase first second ttl ttl' now later cs db l l' g g' =
    let start : Db = (acquire_service_lease_with_fence first ttl now db).1 in
    let at_first : start.lease ≡ some l = (acquire-some first ttl now db l g).0 in
    let at_second : fence_of (run cs start).lease < l'.fence =
      (acquire-some second ttl' later (run cs start) l' g').1 in
    let grown : fence_of start.lease ≤ fence_of (run cs start).lease =
      run-keeps (fence_frame (fence_of start.lease)) (fence_leases (fence_of start.lease))
        (record { purge = λ ds db h. h }) cs start (omega arith) in
    let same : fence_of start.lease ≡ l.fence = rw at_first in omega arith

-- The call renews or releases exactly this term.
unfoldable pub is_own : ServiceLease → Call → Bool
is_own l (renew_lease owner fence ttl) = text_eq l.owner_token owner && l.fence == fence
is_own l (release_lease owner fence) = text_eq l.owner_token owner && l.fence == fence
is_own l _ = false

-- The call is made before the lease expires, and is no renewal or release of its term.
abbrev pub LeavesAlone : ServiceLease → ℕ × Call → Type 0
LeavesAlone l (now, c) = (now < l.expires_at) × (is_own l c ≡ false)

module _ (l : ServiceLease) where
  abbrev Stays : Db → Type 0
  Stays db = db.lease ≡ some l

  Stays-frame : Frame Stays
  Stays-frame = record {
    reviews = λ test f db w h. h;
    completion = λ test f db w h. h;
    publications = λ test f db w h. h;
    nudges = λ test f db w h. h;
    findings = λ fs db h. h;
    deliveries = λ ds db e h. h;
    new_review = λ r db i q c h. h;
    new_publication = λ p db i q c h. h;
    new_nudge = λ m db i q h. h;
  }

  -- Before it expires the lease is not free.
  refused_acquire :
      (owner : Bytes) (ttl now : ℕ) (db : Db)
      → db.lease ≡ some l
      → now < l.expires_at
      → (acquire_service_lease_with_fence owner ttl now db).1 ≡ db
  unfolding is_free
  refused_acquire owner ttl now db h early =
      rw (acquire_lem owner ttl now db)
        (let taken : is_free now db.lease ≡ false = rw h (ground arith) in rw taken (ground arith))

  not_held :
      (owner : Bytes) (fence now : ℕ) (db : Db)
      → db.lease ≡ some l
      → (text_eq l.owner_token owner && l.fence == fence) ≡ false
      → is_held owner fence now db.lease ≡ false
  unfolding is_held
  not_held owner fence now db h other = rw h (ground arith)

  renew_other :
      (owner : Bytes) (fence ttl now : ℕ) (db : Db)
      → is_held owner fence now db.lease ≡ false
      → (renew_service_lease owner fence ttl now db).1.lease ≡ db.lease
  unfolding renew_service_lease validate_service_lease validate_service_lease_owner transact ◌>>=◌
      require gets modify commit
  renew_other owner fence ttl now db n = elim (Bool-cases (is_valid_owner owner)) [
    | inl v ↦ rw v (elim (Bool-cases (ltb 0 ttl)) [
      | inl t ↦ rw t (elim (Bool-cases (leb 1 fence)) [ inl f ↦ rw (f, n) | inr f ↦ rw f ])
      | inr t ↦ rw t
    ])
    | inr v ↦ rw v
  ]

  release_other :
      (owner : Bytes) (fence now : ℕ) (db : Db)
      → is_held owner fence now db.lease ≡ false
      → (release_service_lease owner fence now db).1.lease ≡ db.lease
  unfolding release_service_lease validate_service_lease_term validate_service_lease_owner transact
      ◌>>=◌ require gets modify commit
  release_other owner fence now db n = elim (Bool-cases (is_valid_owner owner)) [
    | inl v ↦ rw v (elim (Bool-cases (leb 1 fence)) [ inl f ↦ rw (f, n) | inr f ↦ rw f ])
    | inr v ↦ rw v
  ]

  Stays-step : (c : ℕ × Call) (db : Db) → LeavesAlone l c → Stays db → Stays (step c db)
  unfolding step is_own purge_deliveries_before
  Stays-step (now, acquire_lease owner ttl) db a h = rw (refused_acquire owner ttl now db h a.0) h
  Stays-step (now, renew_lease owner fence ttl) db a h =
      renew_other owner fence ttl now db (not_held owner fence now db h a.1) ∙ h
  Stays-step (now, release_lease owner fence) db a h =
      release_other owner fence now db (not_held owner fence now db h a.1) ∙ h
  Stays-step (now, admit_review r delivery_id admission token) db a h =
      (Intake.create_review_with_admission-keeps Stays-frame r delivery_id admission token now).at
        db h
  Stays-step (now, admit_nudge n delivery_id token) db a h =
      (Nudges.create_nudge_once-keeps Stays-frame n delivery_id token now).at db h
  Stays-step (now, purge_deliveries cutoff) db a h = h
  Stays-step (now, work owner fence w) db a h = perform-keeps Stays-frame owner fence now w db h

  stays : (cs : List (ℕ × Call)) (db : Db) → All (LeavesAlone l) cs → Stays db → Stays (run cs db)
  unfolding run
  stays [] db a h = h
  stays (c ∷ cs) db a h = stays cs (step c db) a.1 (Stays-step c db a.0 h)

-- From the grant of a lease until it expires, and as long as its own term is not renewed or
-- released, no other acquisition is granted, whatever calls the processes make.
pub lease_excludes :
    (owner other : Bytes) (ttl ttl' now later : ℕ) (cs : List (ℕ × Call)) (db : Db)
    (l : ServiceLease)
    → (acquire_service_lease_with_fence owner ttl now db).0 ≡ ok (some l)
    → All (LeavesAlone l) cs
    → later < l.expires_at
    → is_valid_owner other ≡ true
    → 0 < ttl'
    → (acquire_service_lease_with_fence other ttl' later
        (run cs (acquire_service_lease_with_fence owner ttl now db).1)).0
      ≡ ok none
unfolding is_free
lease_excludes owner other ttl ttl' now later cs db l g quiet early valid positive =
    let start : Db = (acquire_service_lease_with_fence owner ttl now db).1 in
    let held : (run cs start).lease ≡ some l =
      stays l cs start quiet (acquire-some owner ttl now db l g).0 in
    let taken : is_free later (run cs start).lease ≡ false = rw held (ground arith) in
    let lives : ltb 0 ttl' ≡ true = ground arith in
    rw (acquire_lem other ttl' later (run cs start), valid, lives, taken) refl
