-- ===== src/Storage/Locks/Exclusive.antt =====
-- Proofs about storage/locks.c: mutual exclusion on a sentence of a file.
use mathlib.Core.Path.{fun_ext}
use distributed_document_sys.Storage.Locks.{
  LockResult, LockInfo, Locks, is_lock, init_locks, create_lock, conflict, full, max_locks,
  find_lock, release_lock, created,
}
use distributed_document_sys.Base.{
  update, not, ap, find_first, refl, arith, ℕ, find_first-eq-none, inl, some, none, ◌≢◌, ◌<◌, inr,
  Option-cases, find_first-eq-some, true, CString, false, ◌⊎◌, ◌≡◌,
}

abbrev pub IsExclusive : Locks → Type 0
IsExclusive locks =
    (i j : ℕ) (f : CString) (s : ℕ)
    → i < max_locks
    → j < max_locks
    → is_lock f s (locks i) ≡ true
    → is_lock f s (locks j) ≡ true
    → i ≡ j

pub find_lock-eq-some :
    (f : CString) (s i : ℕ) (locks : Locks)
    → find_lock f s locks ≡ some i
    → (i < max_locks) × (is_lock f s (locks i) ≡ true)
unfolding find_lock
find_lock-eq-some f s i locks e =
    ground (arith, find_first-eq-some (λ i. is_lock f s (locks i)) max_locks 0 i e)

pub find_lock-eq-none :
    (f : CString) (s i : ℕ) (locks : Locks)
    → find_lock f s locks ≡ none
    → i < max_locks
    → is_lock f s (locks i) ≡ false
unfolding find_lock
find_lock-eq-none f s i locks e lt =
    find_first-eq-none (λ i. is_lock f s (locks i)) max_locks 0 i e (omega arith) (omega arith)

-- A place that holds the lock is the one that is found.
pub find_lock_unique :
    (f : CString) (s i : ℕ) (locks : Locks)
    → IsExclusive locks
    → i < max_locks
    → is_lock f s (locks i) ≡ true
    → find_lock f s locks ≡ some i
find_lock_unique f s i locks x lt e = elim (Option-cases (find_lock f s locks)) [
  | inl absent ↦ absurd (ground (arith, find_lock-eq-none f s i locks absent lt))
  | inr (j, found) ↦ ground (arith, find_lock-eq-some f s j locks found, x i j f s lt)
]

find_lock-absent :
    (f : CString) (s : ℕ) (locks : Locks)
    → ((i : ℕ) → i < max_locks → is_lock f s (locks i) ≡ false)
    → find_lock f s locks ≡ none
find_lock-absent f s locks h = elim (Option-cases (find_lock f s locks)) [
  | inl absent ↦ absent
  | inr (j, found) ↦ absurd (ground (arith, find_lock-eq-some f s j locks found, h j))
]

pub init_locks-IsExclusive : (locks : Locks) → IsExclusive (init_locks locks)
unfolding init_locks
init_locks-IsExclusive locks i j f s hi hj a b = ground arith

-- `create_lock` keeps the lock table exclusive: no sentence of a file has two active locks.
pub create_lock-IsExclusive :
    (f : CString) (s sock : ℕ) (locks : Locks)
    → IsExclusive locks
    → IsExclusive (create_lock f s sock locks).1
unfolding create_lock
create_lock-IsExclusive f s sock locks x i j g t hi hj a b =
    ground (arith, x i j g t, find_lock-eq-none f s i locks, find_lock-eq-none f s j locks)

-- `release_lock` keeps the lock table exclusive.
pub release_lock-IsExclusive :
    (f : CString) (s : ℕ) (locks : Locks) → IsExclusive locks → IsExclusive (release_lock f s locks)
unfolding release_lock
release_lock-IsExclusive f s locks x i j g t hi hj a b = ground (arith, x i j g t)

find_lock_congr :
    (f : CString) (s : ℕ) (a b : Locks)
    → ((i : ℕ) → is_lock f s (a i) ≡ is_lock f s (b i))
    → find_lock f s a ≡ find_lock f s b
unfolding find_lock
find_lock_congr f s a b h = ap (λ p. find_first p max_locks 0) (fun_ext h)

-- What `create_lock` reports, and what is then the case.
pub data Outcome (f : CString) (s sock : ℕ) (before : Locks) (result : LockResult) (after : Locks)
    : Type 0 where
  -- the sentence is locked already
  refused :
      (i : ℕ)
      → result ≡ conflict
      → find_lock f s before ≡ some i
      → after ≡ before
      → Outcome f s sock before result after
  -- the sentence is free, and the table has no room
  exhausted :
      result ≡ full
      → find_lock f s before ≡ none
      → ((i : ℕ) → i < max_locks → (before i).active ≡ true)
      → after ≡ before
      → Outcome f s sock before result after
  -- the lock is taken for the client, and every other lock is as it was
  taken :
      (i : ℕ)
      → result ≡ created
      → find_lock f s before ≡ none
      → find_lock f s after ≡ some i
      → (after i).sock_fd ≡ sock
      → ((g : CString) (t : ℕ) → (g ≢ f) ⊎ (t ≢ s) → find_lock g t after ≡ find_lock g t before)
      → Outcome f s sock before result after

module _ (f : CString) (s sock : ℕ) (locks : Locks) (x : IsExclusive locks) where
  abbrev new : LockInfo
  new = record { active = true; filename = f; sentence_ptr = s; sock_fd = sock }

  free_slot :
      (i : ℕ)
      → find_first (λ i. not (locks i).active) max_locks 0 ≡ some i
      → (i < max_locks) × ((locks i).active ≡ false)
  free_slot i e = ground (arith, find_first-eq-some (λ i. not (locks i).active) max_locks 0 i e)

  -- In an exclusive table `create_lock` refuses a sentence that is locked and changes nothing;
  -- reports a full table only when every place is active, and changes nothing; else takes the
  -- lock for the client, who is then found to hold it, and every other lock is as it was.
  pub create_lock-Outcome : let r = create_lock f s sock locks in Outcome f s sock locks r.0 r.1
  unfolding create_lock
  create_lock-Outcome = elim (Option-cases (find_lock f s locks)) [
    | inr (i, e) ↦ rw (e, create_lock) (refused i refl e refl)
    | inl absent ↦ elim (Option-cases (find_first (λ i. not (locks i).active) max_locks 0)) [
      | inl none_free ↦
          rw (absent, none_free, create_lock)
            (exhausted refl absent
              (λ i lt.
                ground
                  (arith, find_first-eq-none (λ i. not (locks i).active) max_locks 0 i none_free))
              refl)
      | inr (i, e) ↦
          rw (absent, e, create_lock)
            (taken i refl absent
              (find_lock_unique f s i (update locks i new)
                (λ k j g t hk hj a b. ground (
                  arith,
                  x k j g t,
                  find_lock-eq-none f s k locks absent,
                  find_lock-eq-none f s j locks absent,
                ))
                (free_slot i e).0 (ground arith))
              (ground arith)
              (λ g t ne.
                find_lock_congr g t (update locks i new) locks
                  (λ j. ground (arith, free_slot i e))))
    ]
  ]

  -- In an exclusive table a released sentence is free, and the lock of every other sentence is
  -- as it was.
  pub release_lock_lem :
      (find_lock f s (release_lock f s locks) ≡ none)
      × ((g : CString) (t : ℕ)
          → (g ≢ f) ⊎ (t ≢ s)
          → find_lock g t (release_lock f s locks) ≡ find_lock g t locks)
  unfolding release_lock
  release_lock_lem = elim (Option-cases (find_lock f s locks)) [
    | inl absent ↦ rw (absent, release_lock) (absent, λ g t ne. refl)
    | inr (i, e) ↦
        rw (e, release_lock)
          (
            find_lock-absent f s (update locks i (record (locks i) { active = false }))
                (λ j lt. ground (arith, find_lock-eq-some f s i locks e, x j i f s lt)),
            (λ g t ne.
                find_lock_congr g t (update locks i (record (locks i) { active = false })) locks
                  (λ j. ground (arith, find_lock-eq-some f s i locks e))),
          )
  ]
